-- ===== src/RequestLimiter/Bounds.antt =====
-- How many handlers frontik/request_integrations/request_limiter.py lets run at once.
use frontik.Prelude.{
  ℕ, zero, suc, ◌+◌, ◌≤◌, ◌≡◌, ◌↔◌, refl, ◌||◌, not, true, List, [], ◌∷◌, ◌++◌, arith,
  if◌then◌else◌, All, All-snoc,
}
use frontik.RequestLimiter.{
  Shared, Limit, create, Server, start, enter, close_at, leave, Reach, begin, enters, leaves,
}

-- The requests that hold a place.
abbrev pub running : List Limit → ℕ
running [] = 0
running (limit ∷ limits) = if limit.acquired then suc (running limits) else running limits

-- The requests in their `with` block.
abbrev pub in_block : List Limit → ℕ
in_block [] = 0
in_block (limit ∷ limits) = if limit.is_open then suc (in_block limits) else in_block limits

-- A request that has left its block holds no place.
abbrev pub IsClean : Limit → Type 0
IsClean limit = (limit.is_open || not limit.acquired) ≡ true

pub record IsValid (max_active_handlers : ℕ) (server : Server) : Type 0 where
  pub counted : server.shared.count ≡ running server.limits
  pub bounded : server.shared.count ≤ max_active_handlers + 1
  pub clean : All IsClean server.limits

running-append : (xs ys : List Limit) → running (xs ++ ys) ≡ running xs + running ys
running-append [] ys = omega arith
running-append (x ∷ xs) ys = ground (arith, running-append xs ys)

enter-IsValid : (m : ℕ) (server : Server) → IsValid m server → IsValid m (enter m server)
unfolding enter
enter-IsValid m server v = record {
  counted = ground (arith, running-append server.limits ((create m server.shared).1 ∷ []));
  bounded = ground arith;
  clean = All-snoc IsClean server.limits v.clean (ground arith);
}

close_at_counted :
    (s : Shared) (limits : List Limit) (i : ℕ)
    → running limits ≤ s.count
    → (close_at s limits i).0.count + running limits ≡ s.count + running (close_at s limits i).1
unfolding close_at
close_at_counted s [] i h = omega arith
close_at_counted s (limit ∷ limits) zero h = ground arith
close_at_counted s (limit ∷ limits) (suc i) h = ground (arith, close_at_counted s limits i)

close_at-count_le :
    (s : Shared) (limits : List Limit) (i : ℕ) → (close_at s limits i).0.count ≤ s.count
unfolding close_at
close_at-count_le s [] i = omega arith
close_at-count_le s (limit ∷ limits) zero = ground arith
close_at-count_le s (limit ∷ limits) (suc i) = close_at-count_le s limits i

close_at-IsClean :
    (s : Shared) (limits : List Limit) (i : ℕ)
    → All IsClean limits
    → All IsClean (close_at s limits i).1
unfolding close_at
close_at-IsClean s [] i h = tt
close_at-IsClean s (limit ∷ limits) zero (h, hs) = (ground arith, hs)
close_at-IsClean s (limit ∷ limits) (suc i) (h, hs) = (h, close_at-IsClean s limits i hs)

leave-IsValid : (m i : ℕ) (server : Server) → IsValid m server → IsValid m (leave i server)
unfolding leave
leave-IsValid m i server v = record {
  counted = omega (arith, close_at_counted server.shared server.limits i (omega arith));
  bounded = omega (arith, close_at-count_le server.shared server.limits i);
  clean = close_at-IsClean server.shared server.limits i v.clean;
}

Reach-IsValid_of : {m : ℕ} {server : Server} → Reach m server → IsValid m server
Reach-IsValid_of begin = record { counted = refl; bounded = omega arith; clean = tt }
Reach-IsValid_of {m} (enters {server} r) = enter-IsValid m server (Reach-IsValid_of r)
Reach-IsValid_of {m} (leaves {server} i r) = leave-IsValid m i server (Reach-IsValid_of r)

-- Whatever the order in which requests come and go, the counter is the number of requests that hold
-- a place, is at most one above `max_active_handlers`, and no request that has left holds a place.
pub Reach-IsValid : (m : ℕ) (server : Server) → Reach m server → IsValid m server
Reach-IsValid m server r = Reach-IsValid_of r

running-le-in_block : (limits : List Limit) → All IsClean limits → running limits ≤ in_block limits
running-le-in_block [] h = omega arith
running-le-in_block (limit ∷ limits) (h, hs) = ground (arith, running-le-in_block limits hs)

-- When every request has left its block, whether it was admitted or dropped, the counter is back at
-- zero.
count-zero_of_all_left :
    (m : ℕ) (server : Server)
    → Reach m server
    → in_block server.limits ≡ 0
    → server.shared.count ≡ 0
count-zero_of_all_left m server r h =
    let v = Reach-IsValid_of r in
    omega (arith, v.counted, running-le-in_block server.limits v.clean)

-- A new request is admitted exactly when the counter is not above `max_active_handlers`; the counter
-- goes up by one for it, and a dropped request leaves the counter as it is.
pub create_lem :
    (m : ℕ) (s : Shared)
    → (((create m s).1.acquired ≡ true) ↔ (s.count ≤ m))
      × ((create m s).0.count ≡ (if (create m s).1.acquired then s.count + 1 else s.count))
unfolding create
create_lem m s = ground arith

-- a server that `n` requests have entered
pub entered : ℕ → ℕ → Server
entered m zero = start
entered m (suc n) = enter m (entered m n)

entered-Reach : (m n : ℕ) → Reach m (entered m n)
unfolding entered
entered-Reach m zero = begin
entered-Reach m (suc n) = enters (entered-Reach m n)

count-entered : (m n : ℕ) → n ≤ m + 1 → (entered m n).shared.count ≡ n
unfolding entered enter
count-entered m zero h = refl
count-entered m (suc n) h = ground (arith, count-entered m n)

-- With the limit `m`, `m + 1` requests can hold a place at once: the documented limit is exceeded
-- by one.
limit_exceeded : (m : ℕ) → (server : Server) × Reach m server × (running server.limits ≡ m + 1)
limit_exceeded m =
    let r = entered-Reach m (m + 1) in
    (entered m (m + 1), r, omega (arith, (Reach-IsValid_of r).counted, count-entered m (m + 1)))
