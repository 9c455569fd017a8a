-- ===== src/Payment/Laws.antt =====
-- What the payment service relies on: a repository is a map from ids to payments.
use challenge_senior.Prelude.{String, ◌≡◌, Option, none, some, if◌then◌else◌, ◌==◌}
use challenge_senior.Kit.Errors.{sentinel, not_found}
use challenge_senior.Kit.Action.{Result, ok, err}
use challenge_senior.Payment.{Payment, Repository}

-- What `get` returns for what is stored under an id.
abbrev pub found : Option Payment → Result Payment
found none = err (sentinel not_found)
found (some p) = ok p

-- What is stored under `j` once `p` has been saved under its id.
abbrev pub saved : (String → Option Payment) → Payment → String → Option Payment
saved stored p j = if p.id == j then some p else stored j

pub record IsStore {S : Type 0} (r : Repository S) (stored : S → String → Option Payment)
    : Type 0 where
  pub get_lem : (i : String) (s : S) → r.get i s ≡ (found (stored s i), s)
  pub save_lem : (p : Payment) (s : S) (j : String) → stored (r.save p s).1 j ≡ saved (stored s) p j
  pub save_outcome : (p : Payment) (s : S) → (r.save p s).0 ≡ ok tt
