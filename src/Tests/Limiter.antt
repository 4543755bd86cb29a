-- ===== src/Tests/Limiter.antt =====
-- The theorems on the limiter at concrete runs.
use nyuka.Domain.RateLimit.{RateLimit}
use nyuka.Common.{
  ◌++◌, Option, ◌+◌, ◌≤◌, max, Bool, true, false, none, some, List, [], ◌∷◌, ◌≡◌, ◌⊎◌, refl, arith,
}
use nyuka.Jobs.Limiter.{
  new, register, permits_for, insert, lookup, enter, update_at, take_one, free_at, available,
}
use nyuka.Jobs.Limiter.Steps.{
  Ticket, System, start, asked, changed, asks, is_granted, Reach, here, next, count_of, in_flight,
}
use nyuka.Jobs.Limiter.Progress.{waiting-is_served}
use nyuka.Jobs.Limiter.Permits.{available-in_flight}
use nyuka.Jobs.Limiter.OneSemaphore.{in_flight-capped}

abbrev ticket : Ticket
ticket = record { source = 7; semaphore = 0 }

abbrev one_waits : System
one_waits = asked 7 (start 2)

abbrev one_holds : System
one_holds = record one_waits {
  limiter = changed take_one ticket one_waits.limiter;
  waiting = [];
  held = ticket ∷ [];
}

waits : {r : Bool} → Reach r (start 2) one_waits
waits = next here (asks 7)

holds : {r : Bool} → Reach r (start 2) one_holds
unfolding new enter lookup insert
holds =
    next waits (is_granted [] ticket [] (record { permits = 2; free = 2 }) refl refl (omega arith))

one_free : available 7 one_holds.limiter ≡ 1
unfolding available new enter lookup insert update_at free_at
one_free = refl

still_its_own : lookup 7 one_holds.limiter.limits ≡ some 0
unfolding new enter lookup insert update_at
still_its_own = refl

waits_for_one : Reach true (asked 7 (start 2)) one_holds
unfolding new enter lookup insert
waits_for_one =
    next here (is_granted [] ticket [] (record { permits = 2; free = 2 }) refl refl (omega arith))

available-in_flight_example :
    ((declared : Option RateLimit)
      → Reach true (record (start 2) { limiter = register 7 declared (start 2).limiter }) one_holds
      → lookup 7 one_holds.limiter.limits ≡ some 0
      → (available 7 one_holds.limiter + count_of 0 one_holds.held
          ≡ permits_for (start 2).limiter declared)
        × (1 ≤ permits_for (start 2).limiter declared)
        × (permits_for (start 2).limiter declared ≤ max 2 1))
    × (lookup 7 (start 2).limiter.limits ≡ none
        → Reach true (asked 7 (start 2)) one_holds
        → lookup 7 one_holds.limiter.limits ≡ some 0
        → available 7 one_holds.limiter + count_of 0 one_holds.held ≡ max 2 1)
unfolding new
available-in_flight_example = available-in_flight 2 7 {s = start 2} {u = one_holds} here

two_in_all : available 7 one_holds.limiter + count_of 0 one_holds.held ≡ 2
unfolding new lookup
two_in_all =
    (available-in_flight 2 7 {s = start 2} {u = one_holds} here).1 refl waits_for_one still_its_own

waiting-is_served_example :
    (u : System) × Reach false one_waits u
    × (u.waiting ≡ [])
    × ((u.held ≡ ticket ∷ [])
        ⊎ ((front : List Ticket) × (k : Ticket) × (back : List Ticket) × ([] ≡ front ++ (k ∷ back))
            × (k.semaphore ≡ 0)
            × (u.held ≡ ticket ∷ (front ++ back))))
unfolding new enter lookup insert
waiting-is_served_example = waiting-is_served 2 {r = true} [] ticket [] waits refl

in_flight-capped_example : in_flight 7 one_holds.held ≤ max 2 1
in_flight-capped_example = in_flight-capped 2 7 holds
