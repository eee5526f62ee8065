-- ===== src/Cdc/Pool/Tests.antt =====
-- A pool of two slots.
use pico_sdemu.Common.{◌≡◌, refl, ◌↔◌, true, none, some, [], ◌∷◌, get_elem?, All}
use pico_sdemu.Cdc.Pool.{
  Pool, Slot, reading, ready, empty_slot, is_reading, choose, find_from, reserve, checked,
  find_ready, complete_read, copy_ready,
}
use pico_sdemu.Cdc.Pool.Reserve.{
  is_in_flight, IsVictim, IsReplaced, reserved_slot, reserve_keeps_in_flight, reserve_takes_oldest,
  reserve_refused_iff,
}
use pico_sdemu.Cdc.Pool.Fill.{complete_read-copy_ready}

abbrev reading_slot : Slot
reading_slot = record empty_slot { lba = 9; generation = 1; last_used = 1; state = reading }

abbrev ready_slot : Slot
ready_slot = record empty_slot { lba = 5; generation = 1; last_used = 2; state = ready }

abbrev two_slots : Pool
two_slots = record { slots = reading_slot ∷ ready_slot ∷ []; next_use = 3 }

reserve_keeps_in_flight_example :
    get_elem? (reserve two_slots 7 1 reading).0.slots 0 ≡ some reading_slot
reserve_keeps_in_flight_example =
    reserve_keeps_in_flight two_slots 7 1 reading 0 reading_slot refl refl

reserves_second : (reserve two_slots 7 1 reading).1 ≡ some 1
unfolding reserve choose
reserves_second = refl

reserve_takes_oldest_example :
    ((s : Slot) × IsVictim two_slots.slots 1 s)
    × IsReplaced two_slots (reserve two_slots 7 1 reading).0 1 (reserved_slot two_slots 7 1 reading)
reserve_takes_oldest_example =
    reserve_takes_oldest two_slots 7 1 1 reading (refl, (refl, tt)) reserves_second

reserve_refused_iff_example :
    ((reserve two_slots 7 1 reading).1 ≡ none)
    ↔ All (λ (s : Slot). is_in_flight s.state ≡ true) two_slots.slots
reserve_refused_iff_example = reserve_refused_iff two_slots 7 1 reading

is_reading_nine : checked two_slots 0 is_reading 9 1 ≡ some reading_slot
unfolding checked
is_reading_nine = refl

nine_not_cached : find_ready two_slots 9 1 ≡ none
unfolding find_ready find_from
nine_not_cached = refl

complete_read-copy_ready_example :
    let (q, done) = complete_read two_slots 0 9 1 (4 ∷ 2 ∷ []) in
    (done ≡ true) × ((copy_ready q 9 1).1 ≡ some (4 ∷ 2 ∷ []))
complete_read-copy_ready_example =
    complete_read-copy_ready two_slots 0 9 1 (4 ∷ 2 ∷ []) reading_slot is_reading_nine
      nine_not_cached
