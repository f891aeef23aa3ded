-- ===== src/RequestLimiter/Tests.antt =====
-- Runs of frontik/request_integrations/request_limiter.py, and the theorems at them.
use frontik.Prelude.{◌+◌, ◌≤◌, ◌≡◌, ◌↔◌, refl, true, if◌then◌else◌, [], ◌∷◌}
use frontik.RequestLimiter.{create, start, enter, leave, Reach, begin, enters, leaves}
use frontik.RequestLimiter.Bounds.{IsValid, Reach-IsValid, create_lem}

-- With the limit 1 the third request is dropped.
busy :
    (enter 1 (enter 1 (enter 1 start))).shared
    ≡ record { count = 2; gauges = 1 ∷ 2 ∷ []; dropped = 1; watermarks = 1 }
unfolding enter
busy = refl

abbrev crowded : Reach 1 (leave 0 (enter 1 (enter 1 (enter 1 start))))
crowded = leaves 0 (enters (enters (enters begin)))

Reach-IsValid_example : IsValid 1 (leave 0 (enter 1 (enter 1 (enter 1 start))))
Reach-IsValid_example = Reach-IsValid 1 (leave 0 (enter 1 (enter 1 (enter 1 start)))) crowded

create_lem_example :
    (((create 1 start.shared).1.acquired ≡ true) ↔ (start.shared.count ≤ 1))
    × ((create 1 start.shared).0.count ≡ (
        if (create 1 start.shared).1.acquired then start.shared.count + 1 else start.shared.count))
create_lem_example = create_lem 1 start.shared
