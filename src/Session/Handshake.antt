-- ===== src/Session/Handshake.antt =====
-- The dialogues by which a server accepts a client, and that `authenticate` of src/connect_raw.rs
-- succeeds by one of them only.
use may_postgres.Base.{
  Bool, true, false, ◌||◌, List, [], ◌∷◌, ◌≡◌, refl, sym, ap, ◌∙◌, some, arith, inl, inr,
  Bool-cases, Bytes, Text, text_eq, as_bytes, bind-eq-ok, Result, ok, err,
}
use may_postgres.Protocol.{
  Items, finished, item, failed, Message, authentication_ok, authentication_cleartext_password,
  authentication_md5_password, authentication_sasl, authentication_sasl_continue,
  authentication_sasl_final,
}
use may_postgres.Error.{Error}
use may_postgres.Config.{Config}
use may_postgres.Client.Query.{collect_items}
use may_postgres.Session.{
  Authentication, scram_sha_256, scram_sha_256_plus, scan_mechanisms, supported,
}

-- One of the two mechanisms that the client looks for.
abbrev pub offers : List Text → Bool
offers [] = false
offers (name ∷ names) =
    text_eq name scram_sha_256 || text_eq name scram_sha_256_plus || offers names

abbrev pub Offers : Items Text → Type 0
Offers mechanisms =
    (names : List Text) × (collect_items mechanisms ≡ ok names) × (offers names ≡ true)

-- What the server says and what the client writes until it is accepted.
pub data Handshake (auth : Authentication) (config : Config)
    : List Message → List Bytes → Type 0 where
  trusted : Handshake auth config (authentication_ok ∷ []) []
  cleartext :
      (password bytes : Bytes)
      → config.password ≡ some password
      → auth.password_message password ≡ ok bytes
      → Handshake auth config
          (authentication_cleartext_password ∷ authentication_ok ∷ [])
          (bytes ∷ [])
  md5 :
      (user : Text) (password salt bytes : Bytes)
      → config.user ≡ some user
      → config.password ≡ some password
      → auth.password_message (as_bytes (auth.md5_hash (as_bytes user) password salt)) ≡ ok bytes
      → Handshake auth config
          (authentication_md5_password salt ∷ authentication_ok ∷ [])
          (bytes ∷ [])
  scram :
      (mechanisms : Items Text) (password first data1 : Bytes) (state : auth.Scram)
      (second data2 : Bytes)
      → Offers mechanisms
      → config.password ≡ some password
      → auth.sasl_initial_response scram_sha_256 (auth.scram_message (auth.scram_new password))
        ≡ ok first
      → auth.scram_update data1 (auth.scram_new password) ≡ ok state
      → auth.sasl_response (auth.scram_message state) ≡ ok second
      → auth.scram_finish data2 state ≡ ok tt
      → Handshake auth config
          (authentication_sasl mechanisms
            ∷ authentication_sasl_continue data1
            ∷ authentication_sasl_final data2
            ∷ authentication_ok
            ∷ [])
          (first ∷ second ∷ [])

or_last : (o b : Bool) → (o || (b || true)) ≡ true
or_last true b = refl
or_last false true = refl
or_last false false = refl

or_middle : (o a : Bool) → (o || (true || a)) ≡ true
or_middle true a = refl
or_middle false a = refl

-- The flags at the end say whether one of the mechanisms was seen.
scan_mechanisms-offers :
    (mechanisms : Items Text) (has_scram has_scram_plus : Bool) {flags : Bool × Bool}
    → scan_mechanisms mechanisms has_scram has_scram_plus ≡ ok flags
    → (names : List Text) × (collect_items mechanisms ≡ ok names)
      × ((flags.1 || flags.0) ≡ (offers names || (has_scram_plus || has_scram)))
unfolding scan_mechanisms
scan_mechanisms-offers finished a b h = ([], refl, sym (ap (λ r. or_flags r) h))
  where
    or_flags : Result Error (Bool × Bool) → Bool
    or_flags (ok flags) = flags.1 || flags.0
    or_flags (err e) = false
scan_mechanisms-offers (failed e) a b h = absurd (ground (arith, h))
scan_mechanisms-offers (item name more) a b h = elim (Bool-cases (text_eq name scram_sha_256)) [
  | inl plain ↦
      let (names, collected, e) = scan_mechanisms-offers more true b (rw plain at h) in
      (name ∷ names, rw collected refl, e ∙ or_last (offers names) b ∙ sym (rw plain refl))
  | inr other ↦ elim (Bool-cases (text_eq name scram_sha_256_plus)) [
    | inl plus ↦
        let (names, collected, e) = scan_mechanisms-offers more a true (rw (other, plus) at h) in
        (
          name ∷ names,
          rw collected refl,
          e ∙ or_middle (offers names) a ∙ sym (rw (other, plus) refl),
        )
    | inr third ↦
        let (names, collected, e) = scan_mechanisms-offers more a b (rw (other, third) at h) in
        (name ∷ names, rw collected refl, e ∙ sym (rw (other, third) refl))
  ]
]

supported-eq-ok :
    (flags : Bool × Bool) {mechanism : Text}
    → supported flags ≡ ok mechanism
    → (mechanism ≡ scram_sha_256) × ((flags.1 || flags.0) ≡ true)
supported-eq-ok (a, true) h = (ground (arith, h), refl)
supported-eq-ok (true, false) h = (ground (arith, h), refl)
supported-eq-ok (false, false) h = absurd (ground (arith, h))

pub scan_mechanisms-Offers :
    (mechanisms : Items Text) {flags : Bool × Bool} {mechanism : Text}
    → scan_mechanisms mechanisms false false ≡ ok flags
    → supported flags ≡ ok mechanism
    → (mechanism ≡ scram_sha_256) × Offers mechanisms
scan_mechanisms-Offers mechanisms {flags} h k =
    let (same, seen) = supported-eq-ok flags k in
    let (names, collected, e) = scan_mechanisms-offers mechanisms false false h in
    (same, (names, collected, sym (or_false (offers names)) ∙ sym e ∙ seen))
  where
    or_false : (o : Bool) → (o || (false || false)) ≡ o
    or_false true = refl
    or_false false = refl

-- The scan ends well if the list of mechanisms does.
scan_ends :
    (mechanisms : Items Text) (a b : Bool) {names : List Text}
    → collect_items mechanisms ≡ ok names
    → (flags : Bool × Bool) × (scan_mechanisms mechanisms a b ≡ ok flags)
unfolding scan_mechanisms
scan_ends finished a b h = ((a, b), refl)
scan_ends (failed e) a b h = absurd (ground (arith, h))
scan_ends (item name more) a b h =
    let (rest, collected, _) = bind-eq-ok (collect_items more) _ h in
    elim (Bool-cases (text_eq name scram_sha_256)) [
      | inl plain ↦ let (f, e) = scan_ends more true b collected in (f, rw plain e)
      | inr other ↦ elim (Bool-cases (text_eq name scram_sha_256_plus)) [
        | inl plus ↦ let (f, e) = scan_ends more a true collected in (f, rw (other, plus) e)
        | inr third ↦ let (f, e) = scan_ends more a b collected in (f, rw (other, third) e)
      ]
    ]

supported_if :
    (flags : Bool × Bool) → (flags.1 || flags.0) ≡ true → supported flags ≡ ok scram_sha_256
supported_if (a, true) h = refl
supported_if (true, false) h = refl
supported_if (false, false) h = absurd (ground (arith, h))

pub Offers-supported :
    (mechanisms : Items Text)
    → Offers mechanisms
    → (flags : Bool × Bool) × (scan_mechanisms mechanisms false false ≡ ok flags)
      × (supported flags ≡ ok scram_sha_256)
Offers-supported mechanisms (names, collected, offered) =
    let (flags, scanned) = scan_ends mechanisms false false collected in
    let (names2, collected2, e) = scan_mechanisms-offers mechanisms false false scanned in
    let same : names2 ≡ names = ground (arith, sym collected2 ∙ collected) in
    (
      flags,
      scanned,
      supported_if flags
          (e ∙ ap (λ n. offers n || (false || false)) same ∙ ap (λ o. o || false) offered),
    )
