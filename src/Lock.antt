-- ===== src/Lock.antt =====
-- src/lib/lock.ts. A caller that waits stands for the `resolve` of its promise; both methods give the
-- caller whose promise they resolve, `unlock` through `setImmediate`.
pub mod Fairness
use godcoin_js_legacy.Prelude.{List, [], ◌∷◌, ◌++◌, Bool, true, false, Option, none, some}

pub record Lock (W : Type 0) : Type 0 where
  pub locked : Bool
  pub handles : List W

module _ {W : Type 0} where
  -- the lock of a new object
  abbrev pub unlocked : Lock W
  unlocked = record { locked = false; handles = [] }

  unfoldable pub lock : W → Lock W → Option W × Lock W
  lock w l = elim l.locked [
    | true ↦ (none, record l { handles = l.handles ++ w ∷ [] })
    | false ↦ (some w, record l { locked = true })
  ]

  unfoldable pub unlock : Lock W → Option W × Lock W
  unlock l = elim l.handles [
    | [] ↦ (none, record l { locked = false })
    | resolver ∷ rest ↦ (some resolver, record l { handles = rest })
  ]
