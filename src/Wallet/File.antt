-- ===== src/Wallet/File.antt =====
-- The `FileRepository` of internal/wallet/repository.go. Its lock makes each method one step; the files
-- and JSON are those of Kit.Os.
use Prim.Native.String.{◌++◌ as text_append}
use challenge_senior.Prelude.{String, none, some, [], ◌≡◌, refl, arith, Option, if◌then◌else◌}
use challenge_senior.Prelude.Int.{ℤ, pos, ◌≤ℤ◌, ◌<ℤ◌}
use challenge_senior.Prelude.Int64.{sub64}
use challenge_senior.Prelude.GoMap.{GoMap, index, insert, index-insert}
use challenge_senior.Kit.Errors.{sentinel, join, made, internal, insufficient_funds, is_internal}
use challenge_senior.Kit.Action.{Result, ok, err, panic, Action, continue, give, ◌>>=◌, ◌>>◌}
use challenge_senior.Kit.Os.{Os, contents, missing, unreadable}
use challenge_senior.Kit.MockClient.{internal_error}
use challenge_senior.Kit.MockClient.Exec.{join_internal, of_error}
use challenge_senior.Wallet.{Repository, validate_sufficient_funds}
use challenge_senior.Wallet.Laws.{IsLedger, IsWritten}

pub record FileRepository (World : Type 0) : Type 0 where
  pub path : String
  pub balances : GoMap ℤ
  pub world : World

-- A call of the system by the repository; its error is joined with ErrInternal.
abbrev pub call : {W : Type 0} → (W → Option String × W) → Action (FileRepository W) (Unit {0})
call f r = let (e, w) = f r.world in (of_error e, record r { world = w })

-- `errors.Join(db.ErrInternal, err)` where `err != nil`
abbrev pub internally : Result (Unit {0}) → Result (Unit {0})
internally (ok _) = ok tt
internally (err e) = err (join (sentinel internal) e)
internally panic = panic

module _ (os : Os) where
  abbrev pub Files : Type 0
  Files = FileRepository os.World

  unfoldable pub persist_locked : Action Files (Unit {0})
  persist_locked r =
      (do
        b ← give (join_internal (os.marshal r.balances))
        call (os.write_file (text_append r.path ".tmp") b)
        call (os.rename (text_append r.path ".tmp") r.path))
        r

  unfoldable pub load : Action Files (Unit {0})
  unfolding persist_locked
  load r = elim (os.read_file r.path r.world) [
    | missing ↦ let (o, r') = persist_locked r in (internally o, r')
    | unreadable text ↦ (err (internal_error text), r)
    | contents b ↦
        if os.is_empty b
        then (ok tt, r)
        else continue (join_internal (os.unmarshal b)) r (λ m r. (ok tt, record r { balances = m }))
  ]

  -- `os.MkdirAll`, whose error is returned as it is, and then `load`.
  unfoldable pub open_file : Action Files (Unit {0})
  unfolding load
  open_file r =
      let (e, w) = os.mkdir_all (os.dir r.path) r.world in
      elim e [
        | some text ↦ (err (made text), record r { world = w })
        | none ↦ load (record r { world = w })
      ]

  unfoldable pub new_file_repository : String → os.World → Result (Unit {0}) × Files
  unfolding open_file
  new_file_repository path w = open_file (record { path = path; balances = []; world = w })

  unfoldable pub file_get_balance : String → Action Files ℤ
  file_get_balance user r = (ok (index (pos 0) user r.balances), r)

  unfoldable pub file_set_balance : String → ℤ → Action Files (Unit {0})
  file_set_balance user amount r =
      persist_locked (record r { balances = insert user amount r.balances })

  unfoldable pub file_debit_if_sufficient_funds : String → ℤ → Action Files (Unit {0})
  unfolding validate_sufficient_funds
  file_debit_if_sufficient_funds user amount r =
      let cur = index (pos 0) user r.balances in
      elim (validate_sufficient_funds cur amount) [
        | some e ↦ (err e, r)
        | none ↦ persist_locked (record r { balances = insert user (sub64 cur amount) r.balances })
      ]

  abbrev pub file_repository : Repository Files
  file_repository = record {
    get_balance = file_get_balance;
    set_balance = file_set_balance;
    debit_if_sufficient_funds = file_debit_if_sufficient_funds;
  }

  abbrev pub held_in_file : Files → String → ℤ
  held_in_file r u = index (pos 0) u r.balances

  persist-balances : (r : Files) → (persist_locked r).1.balances ≡ r.balances
  unfolding persist_locked
  persist-balances r = ground arith

  persist-IsWritten : (r : Files) → IsWritten (persist_locked r).0
  unfolding persist_locked is_internal
  persist-IsWritten r = ground arith

  debit-short :
      (u : String) (a : ℤ) (r : Files)
      → pos 0 <ℤ a
      → held_in_file r u <ℤ a
      → file_debit_if_sufficient_funds u a r ≡ (err (sentinel insufficient_funds), r)
  unfolding file_debit_if_sufficient_funds
  debit-short u a r p h = ground arith

  debit-covered :
      (u : String) (a : ℤ) (r : Files)
      → pos 0 <ℤ a
      → a ≤ℤ held_in_file r u
      → file_debit_if_sufficient_funds u a r
        ≡ persist_locked (record r { balances = insert u (sub64 (held_in_file r u) a) r.balances })
  unfolding file_debit_if_sufficient_funds
  debit-covered u a r p h = ground arith

-- The wallet repository over a file keeps the contract that the service relies on, whatever the
-- file system does.
pub file_repository-IsLedger : (os : Os) → IsLedger (file_repository os) (held_in_file os)
unfolding file_get_balance file_set_balance
file_repository-IsLedger os = record {
  get_lem = λ u r. refl;
  set_lem = λ u a r j. rw persist-balances (index-insert (pos 0) u j a r.balances);
  set_outcome = λ u a r. persist-IsWritten os (record r { balances = insert u a r.balances });
  debit_short = λ u a r p h. debit-short os u a r p h;
  debit_lem = λ u a r j p h.
      rw (debit-covered os u a r p h, persist-balances)
        (index-insert (pos 0) u j (sub64 (held_in_file os r u) a) r.balances);
  debit_outcome = λ u a r p h. rw (debit-covered os u a r p h) (
      persist-IsWritten os
        (record r { balances = insert u (sub64 (held_in_file os r u) a) r.balances }));
}
