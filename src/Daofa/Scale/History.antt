-- ===== src/Daofa/Scale/History.antt =====
-- The record of the last rounds that `updateStatus` keeps in the status of the object.
use sunwukong.Base.{◌≡◌, ap, if◌then◌else◌, not, ◌&&◌, [], ◌∷◌, arith, ok}
use sunwukong.Base.Int.{ℤ, pos, eqb_ℤ}
use sunwukong.Houmao.{ZaohuaResult}
use sunwukong.Daofa.Scale.{next_record}

origin_lem :
    (origin kept : ℤ)
    → (if not (eqb_ℤ origin (pos 0)) && eqb_ℤ kept (pos 0) then origin else kept)
      ≡ (if eqb_ℤ kept (pos 0) then origin else kept)
origin_lem origin kept = ground arith

-- With five results kept, `updateStatus` does not panic: the next record has the new result, drops
-- the oldest of the five and has the result before the new one as the last; the number of replicas
-- at the origin is set if it was 0 and kept from then on.
pub next_record_window :
    (origin : ℤ) (new before a b c d e : ZaohuaResult) (kept : ℤ)
    → next_record origin new (record {
      origin_replicas = kept;
      current_zaohua_result = before;
      last_5th_zaohua_result = a ∷ b ∷ c ∷ d ∷ e ∷ [];
    })
      ≡ ok (record {
        origin_replicas = if eqb_ℤ kept (pos 0) then origin else kept;
        current_zaohua_result = new;
        last_5th_zaohua_result = b ∷ c ∷ d ∷ e ∷ before ∷ [];
      })
unfolding next_record
next_record_window origin new before a b c d e kept =
    ap
      (λ n. ok (record {
        origin_replicas = n;
        current_zaohua_result = new;
        last_5th_zaohua_result = b ∷ c ∷ d ∷ e ∷ before ∷ [];
      }))
      (origin_lem origin kept)
