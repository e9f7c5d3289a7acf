-- ===== src/Supervise/Init/Examples.antt =====
-- A worker's record of one backend's init.
use local_preview.Base.{◌≡◌, refl, true, false, some, List, [], ◌∷◌, find}
use local_preview.Supervise.Keys.{Key, backend_key, key_same, Key_comparable}
use local_preview.Supervise.Init.{
  Ledger, init_is_revoked, mark_init_done, revoke_init_done, load_init, InitOp, offer, adopt,
  revoke, apply_all,
}
use local_preview.Supervise.Init.Once.{reads_done, init_revoked_sticks, init_done_sticks}

abbrev app : Key
app = backend_key 1 "abc"

abbrev other : Key
other = backend_key 1 "def"

abbrev ledger : Ledger
ledger = record {
  rows = [];
  wire_specs = (app, record { run_config = "{}"; init_done = false }) ∷ [];
  init_revoked = [];
}

abbrev later : List InitOp
later =
    offer app (record { run_config = "{}"; init_done = true })
    ∷ adopt app
    ∷ offer app (record { run_config = "{}"; init_done = false })
    ∷ revoke other true
    ∷ []

others_differ : key_same other app ≡ false
unfolding key_same
others_differ = refl

loaded : load_init app ledger ≡ some (false, true)
unfolding load_init init_is_revoked find key_same
loaded = refl

init_revoked_sticks_example :
    reads_done (load_init app (apply_all later (revoke_init_done app true ledger))) ≡ false
init_revoked_sticks_example = init_revoked_sticks app true ledger later (tt, (tt, (tt, (tt, tt))))

init_done_sticks_example :
    reads_done (load_init app (apply_all later (mark_init_done app true ledger))) ≡ true
init_done_sticks_example =
    init_done_sticks app true false ledger later loaded (tt, (tt, (tt, (others_differ, tt))))
