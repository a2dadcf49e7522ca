-- ===== src/Session/Reports.antt =====
-- What a server reports before it is ready, and what `read_info` of src/connect_raw.rs keeps of it.
use may_postgres.Base.{
  ◌⊎◌, ℕ, true, false, List, [], ◌∷◌, ◌++◌, map, ◌≡◌, refl, ap, ◌∙◌, Option, none, some, arith,
  if◌then◌else◌, inl, inr, Bool-cases, Text, text_eq, Result, ok, err,
}
use may_postgres.Protocol.{
  IoError, Message, backend_key_data, error_response, notice_response, parameter_status,
  ready_for_query,
}
use may_postgres.Session.{Info, no_info, read_info_from}
use may_postgres.Session.Talks.{received}

pub data Report : Type 0 where
  key : ℕ → ℕ → Report
  status : Text → Text → Report
  notice : Report

abbrev pub report_message : Report → Message
report_message (key process_id secret_key) = backend_key_data process_id secret_key
report_message (status name value) = parameter_status (ok name) (ok value)
report_message notice = notice_response

-- The reports, and that the server is ready.
abbrev pub ready : List Report → List Message
ready reports = map report_message reports ++ ready_for_query ∷ []

-- The keys that were reported, and the values of a parameter.
abbrev pub keys_of : List Report → List (ℕ × ℕ)
keys_of [] = []
keys_of (key process_id secret_key ∷ reports) = (process_id, secret_key) ∷ keys_of reports
keys_of (_ ∷ reports) = keys_of reports

abbrev pub values_of : Text → List Report → List Text
values_of name [] = []
values_of name (status other value ∷ reports) =
    let more = values_of name reports in if text_eq other name then value ∷ more else more
values_of name (_ ∷ reports) = values_of name reports

abbrev pub last_of : {A : Type 0} → A → List A → A
last_of a [] = a
last_of a (b ∷ bs) = last_of b bs

-- A lookup in a map whose newest entries come first.
abbrev pub lookup : Text → List (Text × Text) → Option Text
lookup name [] = none
lookup name ((other, value) ∷ more) =
    let later = lookup name more in if text_eq other name then some value else later

-- What `read_info` holds: the last key, and of each parameter the last value.
pub record Summary (reports : List Report) (info : Info) : Type 0 where
  pub keys_are : (info.process_id, info.secret_key) ≡ last_of (0, 0) (keys_of reports)
  pub values_are :
      (name : Text) → lookup name info.parameters ≡ last_of none (map some (values_of name reports))

abbrev pub report : Info → Report → Info
report info (key process_id secret_key) = record info {
  process_id = process_id;
  secret_key = secret_key;
}
report info (status name value) = record info { parameters = (name, value) ∷ info.parameters }
report info notice = info

abbrev pub report_all : Info → List Report → Info
report_all info [] = info
report_all info (r ∷ rs) = report_all (report info r) rs

report_all-keys :
    (info : Info) (rs : List Report)
    → ((report_all info rs).process_id, (report_all info rs).secret_key)
      ≡ last_of (info.process_id, info.secret_key) (keys_of rs)
report_all-keys info [] = refl
report_all-keys info (key p k ∷ rs) =
    report_all-keys (record info { process_id = p; secret_key = k }) rs
report_all-keys info (status name value ∷ rs) =
    report_all-keys (record info { parameters = (name, value) ∷ info.parameters }) rs
report_all-keys info (notice ∷ rs) = report_all-keys info rs

report_all-values :
    (info : Info) (rs : List Report) (name : Text)
    → lookup name (report_all info rs).parameters
      ≡ last_of (lookup name info.parameters) (map some (values_of name rs))
report_all-values info [] name = refl
report_all-values info (key p k ∷ rs) name =
    report_all-values (record info { process_id = p; secret_key = k }) rs name
report_all-values info (status other value ∷ rs) name =
    report_all-values (record info { parameters = (other, value) ∷ info.parameters }) rs name
    ∙ step (Bool-cases (text_eq other name))
  where
    step :
        (text_eq other name ≡ true) ⊎ (text_eq other name ≡ false)
        → last_of (lookup name ((other, value) ∷ info.parameters)) (map some (values_of name rs))
          ≡ last_of
              (lookup name info.parameters)
              (map some (values_of name (status other value ∷ rs)))
    step (inl e) = rw e refl
    step (inr e) = rw e refl
report_all-values info (notice ∷ rs) name = report_all-values info rs name

pub report_all-Summary : (rs : List Report) → Summary rs (report_all no_info rs)
report_all-Summary rs = record {
  keys_are = report_all-keys no_info rs;
  values_are = report_all-values no_info rs;
}

pub read_info_from-ready :
    (rs : List Report) (rest : List (Result IoError Message)) (info : Info)
    → read_info_from (received (ready rs) ++ rest) info ≡ (ok (report_all info rs), rest)
unfolding read_info_from
read_info_from-ready [] rest info = refl
read_info_from-ready (key p k ∷ rs) rest info = read_info_from-ready rs rest _
read_info_from-ready (status name value ∷ rs) rest info = read_info_from-ready rs rest _
read_info_from-ready (notice ∷ rs) rest info = read_info_from-ready rs rest info

-- A run that succeeds has read reports up to the first ReadyForQuery.
abbrev pub Reads :
    List (Result IoError Message) → Info → Info → List (Result IoError Message) → Type 0
Reads incoming info result rest =
    (rs : List Report) × (incoming ≡ received (ready rs) ++ rest) × (result ≡ report_all info rs)

pub read_info_from-Reads :
    (incoming : List (Result IoError Message)) (info : Info) {result : Info}
    {rest : List (Result IoError Message)}
    → read_info_from incoming info ≡ (ok result, rest)
    → Reads incoming info result rest
unfolding read_info_from
read_info_from-Reads [] info h = absurd (ground (arith, ap (λ p. p.0) h))
read_info_from-Reads (err e ∷ incoming) info h = absurd (ground (arith, ap (λ p. p.0) h))
read_info_from-Reads (ok (backend_key_data p k) ∷ incoming) info h =
    let (rs, read, same) = read_info_from-Reads incoming _ h in
    (key p k ∷ rs, ap (λ l. ok (backend_key_data p k) ∷ l) read, same)
read_info_from-Reads (ok (parameter_status (ok name) (ok value)) ∷ incoming) info h =
    let (rs, read, same) = read_info_from-Reads incoming _ h in
    (status name value ∷ rs, ap (λ l. ok (parameter_status (ok name) (ok value)) ∷ l) read, same)
read_info_from-Reads (ok (parameter_status (ok name) (err e)) ∷ incoming) info h =
    absurd (ground (arith, ap (λ p. p.0) h))
read_info_from-Reads (ok (parameter_status (err e) value) ∷ incoming) info h =
    absurd (ground (arith, ap (λ p. p.0) h))
read_info_from-Reads (ok notice_response ∷ incoming) info h =
    let (rs, read, same) = read_info_from-Reads incoming info h in
    (notice ∷ rs, ap (λ l. ok notice_response ∷ l) read, same)
read_info_from-Reads (ok ready_for_query ∷ incoming) info h =
    ([], ap (λ p. ok ready_for_query ∷ p.1) h, ground (arith, ap (λ p. p.0) h))
read_info_from-Reads (ok (error_response body) ∷ incoming) info h =
    absurd (ground (arith, ap (λ p. p.0) h))
read_info_from-Reads (ok _ ∷ incoming) info h = absurd (ground (arith, ap (λ p. p.0) h))
