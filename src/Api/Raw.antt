-- ===== src/Api/Raw.antt =====
-- Types of the Kubernetes API that the resources carry: metadata, which the program reads and
-- writes, and values that it only copies.
use hbase_k8s_operator.Prelude.{String, List, [], ℤ, none}
use hbase_k8s_operator.GoMap.{GoMap}

-- A value that the program never looks into, carried as its JSON text: a DNS configuration, a host
-- alias, a topology spread constraint, a status condition, an owner reference.
pub record Json : Type 0 where
  pub text : String

-- intstr.IntOrString
pub data IntOrString : Type 0 where
  int : ℤ → IntOrString
  text : String → IntOrString

-- The parts of metav1.ObjectMeta that the program uses.
pub record ObjectMeta : Type 0 where
  pub name : String
  pub namespace : String
  pub labels : GoMap
  pub annotations : GoMap
  pub resource_version : String
  pub owner_references : List Json

-- metav1.ObjectMeta{Name: name, Namespace: namespace, Labels: labels}
abbrev pub new_meta : String → String → GoMap → ObjectMeta
new_meta name namespace labels = record {
  name = name;
  namespace = namespace;
  labels = labels;
  annotations = none;
  resource_version = "";
  owner_references = [];
}

-- types.NamespacedName
pub record NamespacedName : Type 0 where
  pub name : String
  pub namespace : String
