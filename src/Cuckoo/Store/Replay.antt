-- ===== src/Cuckoo/Store/Replay.antt =====
-- store.rs, `apply_mutation`: replaying a log.
use ikpir.Prelude.{◌≡◌, refl, List, [], ◌∷◌, ◌++◌, some, some-injective, >>=-some, ap}
use ikpir.Cuckoo.Table
use ikpir.Cuckoo.Table.{FingerprintValueTable}
use ikpir.Cuckoo.Store.{SlotMutation, apply_mutation, replay}

pub apply_mutation-write :
    (t : FingerprintValueTable) (m : SlotMutation)
    → apply_mutation t m ≡ Table.write t m.bucket m.slot m.new_fingerprint m.new_value_cells
unfolding apply_mutation Table.write
apply_mutation-write t m = refl

pub replay-append :
    (t t' : FingerprintValueTable) (log more : List SlotMutation)
    → replay t log ≡ some t'
    → replay t (log ++ more) ≡ replay t' more
unfolding replay
replay-append t t' [] more h = ap (λ (x : FingerprintValueTable). replay x more) (some-injective h)
replay-append t t' (m ∷ log) more h =
    >>=-some (apply_mutation t m) _ h (λ t1 one rest. rw one (replay-append t1 t' log more rest))

-- A log of one write.
pub replay-one :
    (t t' : FingerprintValueTable) (m : SlotMutation)
    → Table.write t m.bucket m.slot m.new_fingerprint m.new_value_cells ≡ some t'
    → replay t (m ∷ []) ≡ some t'
unfolding replay
replay-one t t' m h = rw (apply_mutation-write t m, h) refl
