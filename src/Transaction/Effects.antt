-- ===== src/Transaction/Effects.antt =====
-- What nested transactions of src/transaction.rs do to the data of a server with savepoints.
use mathlib.Core.Path.{subst}
use may_postgres.Base.{
  ℕ, ◌+◌, ◌^◌, ◌<◌, false, [], ◌∷◌, ◌++◌, ◌≡◌, refl, sym, ap, ◌∙◌, append_assoc, arith, ◌==◌, some,
  Text, codes, ok,
}
use may_postgres.Transaction.{
  Client, Transaction, savepoint_name, commit_query, rollback_query, drop, commit, rollback,
}
use may_postgres.Transaction.Savepoints.{Saved, find, IsServer, Deeper, find-here}
use may_postgres.Transaction.Nesting.{
  Ending, commits, rolls_back, drops, Work, finish, query, nest, transactions_in, kept, meaning,
  AllPlain, and_run, on_begun, in_scope, ended, run, and_run-eq-ok, in_scope-eq-ok, on_begun-eq-ok,
  transaction_lem,
}

module _ (client : Client) where
  open client use {State, batch_execute}

  nested_depth : (depth : ℕ) → (depth + 1 == 0) ≡ false
  nested_depth depth = ground arith

  module _ {V : Type 0} (server : IsServer client V) where
    open server use {value, saved, effect, IsPlain}

    -- The data, and the savepoints: those there were, under some of deeper transactions.
    pub record After (depth : ℕ) (l : Saved V) (v : V) (s : State) : Type 0 where
      pub value_is : value s ≡ v
      pub extra : Saved V
      pub extra-Deeper : Deeper depth extra
      pub saved_is : saved s ≡ extra ++ l

    Deeper-append :
        (depth : ℕ) (a b : Saved V) → Deeper depth a → Deeper depth b → Deeper depth (a ++ b)
    Deeper-append depth [] b h g = g
    Deeper-append depth (x ∷ a) b h g = (h.0, Deeper-append depth a b h.1 g)

    After-After :
        (depth : ℕ) (l : Saved V) (v w : V) (s u : State)
        → After depth l v s
        → After depth (saved s) w u
        → After depth l w u
    After-After depth l v w s u a b = record {
      value_is = b.value_is;
      extra = b.extra ++ a.extra;
      extra-Deeper = Deeper-append depth b.extra a.extra b.extra-Deeper a.extra-Deeper;
      saved_is = b.saved_is ∙ ap (◌++◌ b.extra) a.saved_is ∙ sym (append_assoc b.extra a.extra l);
    }

    found :
        (depth : ℕ) (l extra : Saved V) (v : V) (s : State)
        → Deeper depth extra
        → saved s ≡ extra ++ (savepoint_name depth, v) ∷ l
        → find (savepoint_name depth) (saved s) ≡ some (v, l)
    found depth l extra v s h e = ap (find (savepoint_name depth)) e ∙ find-here depth v extra l h

    committed :
        (depth : ℕ) (l : Saved V) (v : V) (s : State) (text : Text)
        → find (savepoint_name (depth + 1)) (saved s) ≡ some (v, l)
        → codes "RELEASE " ++ savepoint_name (depth + 1) ≡ text
        → (batch_execute text s).0 ≡ ok tt
        → After depth l (value s) (batch_execute text s).1
    committed depth l v s text h e =
        subst (λ q. (batch_execute q s).0 ≡ ok tt → After depth l (value s) (batch_execute q s).1) e
          (λ accepted.
            let (same, less) =
              server.release_effect (savepoint_name (depth + 1)) s v l h accepted in
            record { value_is = same; extra = []; extra-Deeper = tt; saved_is = less })

    undone :
        (depth : ℕ) (l : Saved V) (v : V) (s : State) (text : Text)
        → find (savepoint_name (depth + 1)) (saved s) ≡ some (v, l)
        → codes "ROLLBACK TO " ++ savepoint_name (depth + 1) ≡ text
        → (batch_execute text s).0 ≡ ok tt
        → After depth l v (batch_execute text s).1
    undone depth l v s text h e =
        subst (λ q. (batch_execute q s).0 ≡ ok tt → After depth l v (batch_execute q s).1) e
          (λ accepted.
            let (back, less) =
              server.rollback_effect (savepoint_name (depth + 1)) s v l h accepted in
            record {
              value_is = back;
              extra = (savepoint_name (depth + 1), v) ∷ [];
              extra-Deeper = ((depth + 1, omega arith, refl), tt);
              saved_is = less;
            })

    release_text :
        (depth : ℕ) → codes "RELEASE " ++ savepoint_name (depth + 1) ≡ commit_query (depth + 1)
    unfolding commit_query
    release_text depth = rw (nested_depth depth) refl

    rollback_text :
        (depth : ℕ)
        → codes "ROLLBACK TO " ++ savepoint_name (depth + 1) ≡ rollback_query (depth + 1)
    unfolding rollback_query
    rollback_text depth = rw (nested_depth depth) refl

    ended-After :
        (ending : Ending) (depth : ℕ) (l extra : Saved V) (v : V) (s : State)
        → Deeper (depth + 1) extra
        → saved s ≡ extra ++ (savepoint_name (depth + 1), v) ∷ l
        → (ended client ending (record { depth = depth + 1; done = false }) s).0 ≡ ok tt
        → After depth l
            (kept effect ending (value s) v)
            (ended client ending (record { depth = depth + 1; done = false }) s).1
    unfolding commit rollback drop
    ended-After commits depth l extra v s h e accepted =
        committed depth l v s _ (found (depth + 1) l extra v s h e) (release_text depth) accepted
    ended-After rolls_back depth l extra v s h e accepted =
        undone depth l v s _ (found (depth + 1) l extra v s h e) (rollback_text depth) accepted
    ended-After drops depth l extra v s h e accepted =
        undone depth l v s _ (found (depth + 1) l extra v s h e) (rollback_text depth) accepted

    -- A program of nested transactions that runs without an error on a server with savepoints has
    -- the effect of its queries, less those in nested transactions that were rolled back or dropped,
    -- and the savepoints there were are still there, under some of nested transactions. The depth
    -- stays in the range of `u32`.
    pub run-After :
        (work : Work) (t : Transaction) (s u : State)
        → AllPlain IsPlain work
        → t.depth + transactions_in work < 2 ^ 32
        → run client work t s ≡ (ok tt, u)
        → After t.depth (saved s) (meaning effect work (value s)) u
    run-After finish t s u plain room h =
        subst (After t.depth (saved s) (value s)) (ap (λ r. r.1) h)
          (record { value_is = refl; extra = []; extra-Deeper = tt; saved_is = refl })
    run-After (query text work) t s u plain room h =
        let (accepted, later) =
          and_run-eq-ok client (batch_execute text s) (run client work t) u h in
        let (changed, same) = server.plain_effect text s plain.0 accepted in
        subst (λ v. After t.depth (saved s) (meaning effect work v) u) changed
          (subst (λ l. After t.depth l (meaning effect work (value (batch_execute text s).1)) u)
            same (run-After work t (batch_execute text s).1 u plain.1 room later))
    run-After (nest inner ending work) t s u plain room h =
        let depth = t.depth in
        let nested : Transaction = record { depth = depth + 1; done = false } in
        let rest = run client work t in
        let r0 = batch_execute (codes "SAVEPOINT " ++ savepoint_name (depth + 1)) s in
        let (opened, more) =
          on_begun-eq-ok client (depth + 1) r0
            (λ n s1.
              in_scope client n (run client inner n s1)
                (λ s2. and_run client (ended client ending n s2) rest))
            u
            (ap
                (λ r. on_begun client r (λ n s1.
                  in_scope client n (run client inner n s1)
                    (λ s2. and_run client (ended client ending n s2) rest)))
                (sym (transaction_lem client t s (omega arith)))
              ∙ h) in
        let (same_value, pushed) = server.savepoint_effect (savepoint_name (depth + 1)) s opened in
        let s1 = r0.1 in
        let (worked, end_of) =
          in_scope-eq-ok client nested (run client inner nested s1)
            (λ s2. and_run client (ended client ending nested s2) rest) u more in
        let s2 = (run client inner nested s1).1 in
        let a : After (depth + 1) (saved s1) (meaning effect inner (value s1)) s2 =
          run-After inner nested s1 s2 plain.0 (omega arith) worked in
        let (closed, later) = and_run-eq-ok client (ended client ending nested s2) rest u end_of in
        let b : After depth (saved s) (kept effect ending (value s2) (value s))
            (ended client ending nested s2).1 =
          ended-After ending depth (saved s) a.extra (value s) s2 a.extra-Deeper
            (a.saved_is ∙ ap (◌++◌ a.extra) pushed) closed in
        let c = run-After work t (ended client ending nested s2).1 u plain.1 (omega arith) later in
        let inner_value : value s2 ≡ meaning effect inner (value s) =
          a.value_is ∙ ap (meaning effect inner) same_value in
        After-After depth (saved s) _ _ (ended client ending nested s2).1 u b (
          subst
            (λ v. After depth (saved (ended client ending nested s2).1) (meaning effect work v) u)
            (b.value_is ∙ ap (λ v. kept effect ending v (value s)) inner_value) c)
