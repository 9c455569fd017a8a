-- ===== src/Kit/MockClient/Persistence.antt =====
-- Saving the wallets (kit/db/mock_client.go): what it changes, how it fails, and what a load gives back.
use Prim.Native.String.{◌++◌ as text_append}
use challenge_senior.Prelude.{◌≡◌, true, false, ◌==◌, arith, Either-cases, inl, inr}
use challenge_senior.Kit.Errors.{Error, is_internal, is_conflict}
use challenge_senior.Kit.Action.{Result, ok, err, panic}
use challenge_senior.Kit.Os.{Os, FilesWork, contents}
use challenge_senior.Kit.MockClient.{Client}
use challenge_senior.Kit.MockClient.Exec.{persist_wallets_locked, with_wallets_json_file}

-- An error of the storage: it is internal, and not a conflict.
abbrev pub IsStorageError : Error → Type 0
IsStorageError e = (is_internal e ≡ true) × (is_conflict e ≡ false)

abbrev pub IsSaved : Result (Unit {0}) → Type 0
IsSaved (ok _) = Unit {0}
IsSaved (err e) = IsStorageError e
IsSaved panic = ⊥

module _ (os : Os) (c : Client os.World) where
  -- Saving changes the file system alone.
  pub persist-wallets : (persist_wallets_locked os c).1.wallets ≡ c.wallets
  unfolding persist_wallets_locked
  persist-wallets = ground arith

  pub persist-payments : (persist_wallets_locked os c).1.payments ≡ c.payments
  unfolding persist_wallets_locked
  persist-payments = ground arith

  pub persist-path : (persist_wallets_locked os c).1.wallets_persist_path ≡ c.wallets_persist_path
  unfolding persist_wallets_locked
  persist-path = ground arith

  -- It fails only with an error of the storage.
  pub persist-IsSaved : IsSaved (persist_wallets_locked os c).0
  unfolding persist_wallets_locked is_internal is_conflict
  persist-IsSaved = ground arith

-- After a save that reported no error, the file holds the document of the wallets.
saved_file :
    (os : Os) (c : Client os.World)
    → FilesWork os
    → (c.wallets_persist_path == "") ≡ false
    → (persist_wallets_locked os c).0 ≡ ok tt
    → (b : os.Bytes) × (os.marshal c.wallets ≡ inr b)
      × (os.read_file c.wallets_persist_path (persist_wallets_locked os c).1.world
          ≡ contents (os.newline b))
unfolding persist_wallets_locked
saved_file os c works path saved = elim (Either-cases (os.marshal c.wallets)) [
  | inl (text, failed) ↦ absurd (ground arith)
  | inr (b, made) ↦
      let tmp = text_append c.wallets_persist_path ".tmp" in
      let w = (os.mkdir_all (os.dir c.wallets_persist_path) c.world).1 in
      (
        b,
        made,
        ground (
          arith,
          works.write_read tmp (os.newline b) w,
          works.rename_read tmp c.wallets_persist_path (os.newline b)
              (os.write_file tmp (os.newline b) w).1,
        ),
      )
]

-- Where files hold what is written to them and JSON decodes what it encoded: after a save under
-- a path that reported no error, a client that loads the file at that path has the wallets that
-- were saved.
pub load-persist :
    (os : Os) (c d : Client os.World)
    → FilesWork os
    → (c.wallets_persist_path == "") ≡ false
    → (persist_wallets_locked os c).0 ≡ ok tt
    → d.world ≡ (persist_wallets_locked os c).1.world
    → with_wallets_json_file os c.wallets_persist_path d ≡ (ok tt, record d { wallets = c.wallets })
unfolding with_wallets_json_file
load-persist os c d works path saved same =
    let (b, made, held) = saved_file os c works path saved in
    ground (arith, works.unmarshal_lem c.wallets b made, works.newline_nonempty b)
