-- ===== src/Build/Labels.antt =====
-- operator/controllers/utils.go: label maps. Where the Go function writes into the map that it is
-- given, the result is that map as it stands afterwards.
use hbase_k8s_operator.Prelude.{String, none, some, [], ◌∷◌}
use hbase_k8s_operator.GoMap.{Map, GoMap, insert, merge}

abbrev pub app_label : String
app_label = "app"

abbrev pub cr_label : String
cr_label = "hbasecluster_cr"

abbrev pub pod_name_label : String
pod_name_label = "statefulset.kubernetes.io/pod-name"

abbrev pub stateful_set_label : String
stateful_set_label = "statefulset.kubernetes.io/statefulset-name"

unfoldable pub labels_for_pod_service : String → String → GoMap → Map String
labels_for_pod_service cr_name name none =
    (app_label, "hbasecluster") ∷ (cr_label, cr_name) ∷ (pod_name_label, name) ∷ []
labels_for_pod_service cr_name name (some labels) =
    insert pod_name_label name (insert cr_label cr_name (insert app_label "hbasecluster" labels))

unfoldable pub get_shared_labels_map : String → GoMap → Map String
get_shared_labels_map name none = (app_label, "hbasecluster") ∷ (cr_label, name) ∷ []
get_shared_labels_map name (some labels) =
    insert cr_label name (insert app_label "hbasecluster" labels)

unfoldable pub labels_for_stateful_set : String → String → Map String
unfolding get_shared_labels_map
labels_for_stateful_set name stateful_set_name =
    insert stateful_set_label stateful_set_name (get_shared_labels_map name none)

unfoldable pub match_labels_for_multi_stateful_set : String → String → Map String
unfolding labels_for_stateful_set
match_labels_for_multi_stateful_set name stateful_set_name =
    labels_for_stateful_set name stateful_set_name

-- The map is written into: a nil map would panic. The one caller passes a map that it has made.
unfoldable pub template_labels_for_multi_stateful_set : String → String → Map String → Map String
unfolding labels_for_stateful_set
template_labels_for_multi_stateful_set name stateful_set_name existing =
    merge existing (labels_for_stateful_set name stateful_set_name)
