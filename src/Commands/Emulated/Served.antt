-- ===== src/Commands/Emulated/Served.antt =====
-- src/push_descriptors.cpp: what an emulated push descriptor writes and binds.
use compat_layer.Prelude.{Bool, ℕ, ◌≡◌, true, false, List, Option, none, some, find, map, All}
use compat_layer.Device.{Device}
use compat_layer.Driver.{Driver}
use compat_layer.Descriptors.Tracking.{Tracking}
use compat_layer.Descriptors.Layouts.{Layouts}
use compat_layer.NullDescriptors.{DescriptorType}
use compat_layer.NullDescriptors.Writes.{Write, write_needs_fixup}
use compat_layer.Commands.{Layer}
use compat_layer.Commands.Emulated.{BoundSet}

abbrev Goes : (set : ℕ) → Write → Type 0
Goes set w = w.dst_set ≡ set

-- What a write is to fill
abbrev pub slot : Write → ℕ × DescriptorType × ℕ
slot w = (w.dst_binding, w.type, w.count)

-- The set that was allocated is bound at its place, it has the layout, and it is the target of
-- every write; the writes fill what they were to fill, and none has a null handle.
pub record IsBoundTo (layout place set : ℕ) (ws : List Write) (s : Layer) (b : BoundSet)
    : Type 0 where
  pub placed : b.place ≡ place
  pub chosen : b.set ≡ set
  pub tracked : find b.set s.world.tracking.sets ≡ some layout
  pub goes : All (Goes b.set) b.writes
  pub fills : map slot b.writes ≡ map slot ws
  pub patched : All (λ w. write_needs_fixup w ≡ false) b.writes

-- Something is bound exactly if the allocation succeeds.
pub data Binds (layout place set : ℕ) (ws : List Write) (s : Layer)
    : (allocated : Bool) → Option BoundSet → Type 0 where
  bound :
      (b : BoundSet) → IsBoundTo layout place set ws s b → Binds layout place set ws s true (some b)
  unbound : Binds layout place set ws s false none
