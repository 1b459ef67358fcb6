-- ===== src/Requests.antt =====
-- The requests that are under way: db/badgerdb/badger.go, and
-- vsphere/workerpool/taskreceiver/task_receiver.go over it. A text is the list of its bytes.
pub mod Tracking
use vsphere_facade.Prelude.{Bool, List, [], ◌∷◌, ◌++◌, if◌then◌else◌, not, nat_eq, list_eq, map}
use vsphere_facade.Utils.{slice_contain}
use vsphere_facade.Cache.{Text}
use vsphere_facade.Server.{Server}

-- WorkerType
pub data WorkerType : Type 0 where
  worker_type_operation worker_type_deployment : WorkerType

-- "operation" and "deployment"
abbrev pub worker_type_text : WorkerType → Text
worker_type_text worker_type_operation = 111 ∷ 112 ∷ 101 ∷ 114 ∷ 97 ∷ 116 ∷ 105 ∷ 111 ∷ 110 ∷ []
worker_type_text worker_type_deployment =
    100 ∷ 101 ∷ 112 ∷ 108 ∷ 111 ∷ 121 ∷ 109 ∷ 101 ∷ 110 ∷ 116 ∷ []

-- A database of dgraph-io/badger: `is_open` tells whether Setup opened it, `write` is a batch with one
-- entry and its flush, `remove` one with a deletion; `entries` is a whole iteration.
pub record Badger (D : Type 0) : Type 0 where
  pub is_open : Bool
  pub write : D → Text → Text → D
  pub remove : D → Text → D
  pub entries : D → List (Text × Text)

module _ {D : Type 0} (b : Badger D) where
  -- isAvailable
  unfoldable pub is_available : Bool
  is_available = b.is_open

  -- Set: the errors of the write are logged only.
  unfoldable pub badger_set : D → Text → Text → D
  unfolding is_available
  badger_set d k v = if not is_available then d else b.write d k v

  -- Del, whose error every caller drops
  unfoldable pub badger_del : D → Text → D
  unfolding is_available
  badger_del d k = if not is_available then d else b.remove d k

  -- GetAll
  unfoldable pub badger_get_all : D → List (Text × Text)
  unfolding is_available
  badger_get_all d = if not is_available then [] else b.entries d

-- generateReqID, for the text `uuid` that NewString gives
unfoldable pub generate_req_id : WorkerType → Text → Text
generate_req_id req_type uuid = worker_type_text req_type ++ (58 ∷ uuid)

module _ {W D S : Type 0} (b : Badger D) where
  -- Receive, for the id that is generated and the JSON of the request
  unfoldable pub receive : Text → Text → Server W D S → Server W D S
  unfolding badger_set
  receive id req_json s = record s { db = badger_set b s.db id req_json }

  -- Done
  unfoldable pub done : Text → Server W D S → Server W D S
  unfolding badger_del
  done id s = record s { db = badger_del b s.db id }

  -- Cancel
  unfoldable pub cancel : Text → Server W D S → Server W D S
  unfolding badger_del
  cancel id s = record s { db = badger_del b s.db id }

  -- GetReceivedReq
  unfoldable pub get_received_req : Server W D S → List (Text × Text)
  unfolding badger_get_all
  get_received_req s = badger_get_all b s.db

-- The keys of the entries.
abbrev pub keys_of : List (Text × Text) → List Text
keys_of = map (λ (e : Text × Text). e.0)
