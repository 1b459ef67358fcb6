-- ===== src/Requests/Tracking.antt =====
-- The set of the ids that the task store holds, and how the operations of task_receiver.go change it.
use vsphere_facade.Prelude.{
  Bool, ap, sym, ◌∙◌, false, if◌then◌else◌, list_eq, nat_eq, true, ◌==◌, ◌≡◌,
}
use vsphere_facade.Utils.{slice_contain}
use vsphere_facade.Cache.{Text}
use vsphere_facade.Server.{Server}
use vsphere_facade.Requests.{
  Badger, badger_set, badger_del, keys_of, receive, done, cancel, get_received_req,
}

-- A set of ids.
abbrev pub Ids : Type 0
Ids = Text → Bool

abbrev pub no_ids : Ids
no_ids k = false

abbrev pub with_id : Text → Ids → Ids
with_id id ids k = if id == k then true else ids k

abbrev pub without_id : Text → Ids → Ids
without_id id ids k = if id == k then false else ids k

module _ {D : Type 0} (b : Badger D) where
  abbrev pub stored : D → Ids
  stored d k = slice_contain (keys_of (b.entries d)) k

  -- An open database whose writes and deletions succeed: an iteration finds the keys that were written
  -- and not deleted since.
  pub record BadgerLaws : Type 0 where
    pub open_db : b.is_open ≡ true
    pub stored-write : (d : D) (k v : Text) → stored (b.write d k v) ≡ with_id k (stored d)
    pub stored-remove : (d : D) (k : Text) → stored (b.remove d k) ≡ without_id k (stored d)

  module _ (laws : BadgerLaws) where
    set-stored : (d : D) (k v : Text) → stored (badger_set b d k v) ≡ with_id k (stored d)
    unfolding badger_set
    set-stored d k v = rw (laws.open_db) (laws.stored-write d k v)

    del-stored : (d : D) (k : Text) → stored (badger_del b d k) ≡ without_id k (stored d)
    unfolding badger_del
    del-stored d k = rw (laws.open_db) (laws.stored-remove d k)

  module _ {W S : Type 0} where
    -- The ids that a start of the program would find.
    unfoldable pub received : Server W D S → Ids
    unfolding get_received_req
    received s k = slice_contain (keys_of (get_received_req b s)) k

    -- Only the task store tells.
    pub received-same : (s t : Server W D S) → s.db ≡ t.db → received s ≡ received t
    unfolding received
    received-same s t e = rw e

    module _ (laws : BadgerLaws) where
      received-stored : (s : Server W D S) → received s ≡ stored s.db
      unfolding received
      received-stored s = rw (laws.open_db)

      -- Receive adds the id to those that a start of the program would find.
      pub received-receive :
          (id json : Text) (s : Server W D S)
          → received (receive b id json s) ≡ with_id id (received s)
      unfolding receive
      received-receive id json s =
          received-stored (receive b id json s)
          ∙ set-stored laws s.db id json
          ∙ ap (with_id id) (sym (received-stored s))

      -- Done takes the id away.
      pub received-done :
          (id : Text) (s : Server W D S) → received (done b id s) ≡ without_id id (received s)
      unfolding done
      received-done id s =
          received-stored (done b id s)
          ∙ del-stored laws s.db id
          ∙ ap (without_id id) (sym (received-stored s))

      -- So does Cancel.
      pub received-cancel :
          (id : Text) (s : Server W D S) → received (cancel b id s) ≡ without_id id (received s)
      unfolding cancel
      received-cancel id s =
          received-stored (cancel b id s)
          ∙ del-stored laws s.db id
          ∙ ap (without_id id) (sym (received-stored s))
