-- ===== src/Server.antt =====
-- The state of the whole program while it serves: the vCenter, the task store of db/badgerdb, and
-- what was sent to the outside. An action on one part runs on the whole.
use vsphere_facade.Prelude.{List, ok}
use vsphere_facade.Action.{Action}

pub record Server (W D S : Type 0) : Type 0 where
  pub vcenter : W
  pub db : D
  pub sent : List S

module _ {W D S E A : Type 0} where
  -- An action on the vCenter.
  abbrev pub on_vcenter : Action W E A → Action (Server W D S) E A
  on_vcenter m s = let (w, r) = m s.vcenter in (record s { vcenter = w }, r)

  -- `defer f()`: it runs at the end, after an error and after a panic too.
  abbrev pub deferring :
      (Server W D S → Server W D S) → Action (Server W D S) E A → Action (Server W D S) E A
  deferring f m s = let (t, r) = m s in (f t, r)

module _ {W D S E : Type 0} where
  -- A change that cannot fail.
  abbrev pub change : (Server W D S → Server W D S) → Action (Server W D S) E (Unit {0})
  change f s = (f s, ok tt)
