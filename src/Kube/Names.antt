-- ===== src/Kube/Names.antt =====
-- `types.NamespacedName` of k8s.io/apimachinery.
use sunwukong.Base.{String}

pub record NamespacedName : Type 0 where
  pub namespace : String
  pub name : String
