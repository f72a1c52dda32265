-- ===== src/Tests/Copies.antt =====
-- A copy by api/v1/zz_generated.deepcopy.go.
use sunwukong.Base.{ℕ, ◌≡◌, refl, none, some, [], ◌∷◌, ◌++◌, length, length-append, arith}
use sunwukong.Base.Int.{pos}
use sunwukong.Copies.{
  MetaValue, HoumaoValue, Cell, houmao, metric_specs, strings, Heap, read, write, deep_copy,
}
use sunwukong.Copies.Shared.{IsCopy, get_elem?-append, metrics_of, deep_copy_shares}
use sunwukong.Tests.Scale.{houmao as resource}

-- The metadata hold no finalizers; the copy gets an array of its own.
abbrev pub copy_meta : MetaValue → Heap → MetaValue × Heap
copy_meta metadata heap =
    (record metadata { finalizers = some (length heap) }, heap ++ (strings [] ∷ []))

copies : IsCopy copy_meta
copies = record {
  grows = λ metadata heap. omega (arith, length-append heap (strings [] ∷ []));
  keeps = λ metadata heap a below. get_elem?-append heap (strings [] ∷ []) a below;
}

abbrev pub value : HoumaoValue
value = record {
  metadata = record {
    name = "web";
    namespace = "ns";
    finalizers = none;
    deletion_timestamp = none;
  };
  spec = record {
    scale_target_ref = record { kind = "Deployment"; name = "web"; api_version = "apps/v1" };
    metrics = some 1;
    scale_up = none;
    scale_down = none;
    min_replicas = none;
    max_replicas = pos 5;
    service_name = none;
    limits = none;
    requests = none;
  };
  status = resource.status;
}

abbrev pub heap : Heap
heap = houmao value ∷ metric_specs [] ∷ []

deep_copy_shares_example :
    (out : ℕ) × (copy : HoumaoValue) × (heap' : Heap) × (deep_copy copy_meta (some value) heap
      ≡ (some out, heap'))
    × (read heap out ≡ none)
    × (read heap' out ≡ some (houmao copy))
    × ((cell : Cell) → read (write out cell heap') 0 ≡ some (houmao value))
    × (copy.spec.metrics ≡ some 1)
    × ((cell : Cell) → metrics_of (write 1 cell heap') 0 ≡ some cell)
deep_copy_shares_example =
    deep_copy_shares copy_meta copies heap value 0 1 refl refl refl (λ e. omega arith)
