-- ===== src/Copies.antt =====
-- api/v1/zz_generated.deepcopy.go, over a store of what pointers and slices refer to.
pub mod Shared
use sunwukong.Base.{String, ℕ, suc, Option, none, some, List, [], ◌∷◌, ◌++◌, length, get_elem?, set}
use sunwukong.Base.Int.{ℤ}
use sunwukong.Kube.Time.{Time}
use sunwukong.Kube.Autoscaling.{ObjectReference, MetricSpec, ScalingRules}
use sunwukong.Houmao.{HoumaoStatus}

-- Pointers and slices are addresses; a nil one is `none`.
pub record MetaValue : Type 0 where
  pub name : String
  pub namespace : String
  pub finalizers : Option ℕ
  pub deletion_timestamp : Option ℕ

-- `HoumaoSpec` with the two pointers of the behavior and the two maps of the resources.
pub record SpecValue : Type 0 where
  pub scale_target_ref : ObjectReference
  pub metrics : Option ℕ
  pub scale_up : Option ℕ
  pub scale_down : Option ℕ
  pub min_replicas : Option ℕ
  pub max_replicas : ℤ
  pub service_name : Option ℕ
  pub limits : Option ℕ
  pub requests : Option ℕ

-- A status holds no pointer to what is written.
pub record HoumaoValue : Type 0 where
  pub metadata : MetaValue
  pub spec : SpecValue
  pub status : HoumaoStatus

-- `HoumaoList`, whose items stand side by side in one array.
pub record HoumaoList : Type 0 where
  pub items : Option ℕ

pub data Cell : Type 0 where
  houmao : HoumaoValue → Cell
  houmao_list : HoumaoList → Cell
  houmaos : List HoumaoValue → Cell
  houmao_spec : SpecValue → Cell
  houmao_status : HoumaoStatus → Cell
  metric_specs : List MetricSpec → Cell
  strings : List String → Cell
  scaling_rules : ScalingRules → Cell
  number : ℤ → Cell
  time : Time → Cell
  zero : Cell

abbrev pub Heap : Type 0
Heap = List Cell

abbrev pub read : Heap → ℕ → Option Cell
read heap a = get_elem? heap a

abbrev pub write : ℕ → Cell → Heap → Heap
write a cell heap = set heap a cell

-- `new`: the next address, which holds a zero value.
abbrev pub allocate : Heap → ℕ × Heap
allocate heap = (length heap, heap ++ (zero ∷ []))

-- `ObjectMeta.DeepCopyInto` of the library, which allocates what it copies.
module _ (copy_meta : MetaValue → Heap → MetaValue × Heap) where
  -- The value that `Houmao.DeepCopyInto` makes: the metadata are copied, the spec and the status
  -- are assigned.
  unfoldable pub copied_value : HoumaoValue → Heap → HoumaoValue × Heap
  copied_value value heap =
      let (metadata, heap') = copy_meta value.metadata heap in
      (record { metadata = metadata; spec = value.spec; status = value.status }, heap')

  unfoldable pub deep_copy_into : HoumaoValue → ℕ → Heap → Heap
  unfolding copied_value
  deep_copy_into value out heap =
      let (copy, heap') = copied_value value heap in write out (houmao copy) heap'

  -- `Houmao.DeepCopy` and `DeepCopyObject` of what the pointer refers to; `none` is nil.
  unfoldable pub deep_copy : Option HoumaoValue → Heap → Option ℕ × Heap
  unfolding deep_copy_into
  deep_copy none heap = (none, heap)
  deep_copy (some value) heap =
      let (out, heap') = allocate heap in (some out, deep_copy_into value out heap')

  -- The loop over the items.
  unfoldable pub copied_values : List HoumaoValue → Heap → List HoumaoValue × Heap
  unfolding copied_value
  copied_values [] heap = ([], heap)
  copied_values (value ∷ values) heap =
      let (copy, heap1) = copied_value value heap in
      let (copies, heap2) = copied_values values heap1 in (copy ∷ copies, heap2)

  -- `HoumaoList.DeepCopyInto`, given the items that the list refers to.
  unfoldable pub list_deep_copy_into : Option (List HoumaoValue) → ℕ → Heap → Heap
  unfolding copied_values
  list_deep_copy_into none out heap = write out (houmao_list (record { items = none })) heap
  list_deep_copy_into (some values) out heap =
      let (array, heap1) = allocate heap in
      let (copies, heap2) = copied_values values heap1 in
      write out (houmao_list (record { items = some array })) (write array (houmaos copies) heap2)

  unfoldable pub list_deep_copy : Option (Option (List HoumaoValue)) → Heap → Option ℕ × Heap
  unfolding list_deep_copy_into
  list_deep_copy none heap = (none, heap)
  list_deep_copy (some items) heap =
      let (out, heap') = allocate heap in (some out, list_deep_copy_into items out heap')

-- `HoumaoSpec.DeepCopy` and `HoumaoStatus.DeepCopy`, whose `DeepCopyInto` assign.
unfoldable pub spec_deep_copy : Option SpecValue → Heap → Option ℕ × Heap
spec_deep_copy none heap = (none, heap)
spec_deep_copy (some spec) heap =
    let (out, heap') = allocate heap in (some out, write out (houmao_spec spec) heap')

unfoldable pub status_deep_copy : Option HoumaoStatus → Heap → Option ℕ × Heap
status_deep_copy none heap = (none, heap)
status_deep_copy (some status) heap =
    let (out, heap') = allocate heap in (some out, write out (houmao_status status) heap')
