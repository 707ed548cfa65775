-- ===== src/Reconcile/Validate.antt =====
-- operator/controllers/utils.go: allowedConfigs, isValidXML and validateConfiguration.
pub mod Exact
use hbase_k8s_operator.Prelude.{
  String, ◌⧺◌, Bool, true, false, not, Option, none, some, [], ◌∷◌, if◌then◌else◌,
}
use hbase_k8s_operator.GoMap.{Map, entries, lookup, merge}
use hbase_k8s_operator.Api.{HbaseClusterConfiguration}
use hbase_k8s_operator.Env.{Env, Error}

pub data ConfigType : Type 0 where
  shell xml props text : ConfigType

unfoldable pub allowed_configs : Map ConfigType
allowed_configs =
    ("hbase-policy.xml", xml)
    ∷ ("hbase-site.xml", xml)
    ∷ ("configuration.xsl", xml)
    ∷ ("core-site.xml", xml)
    ∷ ("hadoop-policy.xml", xml)
    ∷ ("hdfs-site.xml", xml)
    ∷ ("httpfs-site.xml", xml)
    ∷ ("kms-acls.xml", xml)
    ∷ ("kms-site.xml", xml)
    ∷ ("log4j.properties", props)
    ∷ ("log4j2.properties", props)
    ∷ ("hadoop-metrics2-hbase.properties", props)
    ∷ ("hadoop-metrics2.properties", props)
    ∷ ("hadoop-metrics.properties", props)
    ∷ ("httpfs-log4j.properties", props)
    ∷ ("kms-log4j.properties", props)
    ∷ ("httpfs-signature.secret", text)
    ∷ ("dfs.exclude", text)
    ∷ ("dfs.include", text)
    ∷ ("hbase-env.sh", shell)
    ∷ ("hadoop-env.sh", shell)
    ∷ []

unfoldable pub is_valid_xml : Env → String → Bool
is_valid_xml env s = env.unmarshal_xml s

-- val == XML, where the key is allowed
abbrev pub is_xml : Option ConfigType → Bool
is_xml (some xml) = true
is_xml _ = false

-- The two loops that fill `allConfig`.
unfoldable pub all_config : HbaseClusterConfiguration → Map String
all_config config = merge (merge [] (entries config.hbase_config)) (entries config.hadoop_config)

abbrev pub invalid_xml : String → Error
invalid_xml key = record {
  message = "Config: " ⧺ (key ⧺ ". Invalid XML file");
  is_not_found = false;
}

-- The third loop, which returns at the first file that is refused. `all` is the map that the loop
-- ranges over, where it looks the contents up.
unfoldable pub validate_entries : Env → Map String → Map String → Option Error
validate_entries env all [] = none
validate_entries env all ((key, value) ∷ rest) =
    let others = validate_entries env all rest in
    if is_xml (lookup key allowed_configs)
    then (elim (lookup key all) [
      | none ↦ if not (is_valid_xml env "") then some (invalid_xml key) else others
      | some contents ↦ if not (is_valid_xml env contents) then some (invalid_xml key) else others
    ])
    else others

-- The Result that goes with it is ctrl.Result{} in both cases.
unfoldable pub validate_configuration : Env → HbaseClusterConfiguration → Option Error
validate_configuration env config = validate_entries env (all_config config) (all_config config)
