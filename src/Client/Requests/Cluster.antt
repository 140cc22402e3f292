-- ===== src/Client/Requests/Cluster.antt =====
-- The calls of src/client.rs for events, nodes and the state of a node.
use turntf_rs.Prelude.{ℤ, String, List, ok, ◌>>◌}
use turntf_rs.Errors.{Fallible}
use turntf_rs.Types.{Json, Event, ClusterNode, LoggedInUser, OperationsStatus}
use turntf_rs.Proto.{ClientBody}
use turntf_rs.Validation.{validate_positive_i64}
use turntf_rs.Client.Call.{
  Call, events_of, cluster_nodes_of, logged_in_users_of, operations_status_of, metrics_of,
}

unfoldable pub logged_in_request : ℤ → Fallible ClientBody
unfolding validate_positive_i64
logged_in_request node_id = do
  validate_positive_i64 node_id "node_id"
  ok (ClientBody.list_node_logged_in_users (record { node_id = node_id }))

module _ {J : Json} where
  -- `list_events`
  abbrev pub list_events : ℤ → ℤ → Call J (List Event)
  list_events after limit = record {
    request = ok (ClientBody.list_events (record { after = after; limit = limit }));
    answer_of = events_of;
    missing = "missing items in list_events_response";
  }

  -- `list_cluster_nodes`
  abbrev pub list_cluster_nodes : Call J (List ClusterNode)
  list_cluster_nodes = record {
    request = ok ClientBody.list_cluster_nodes;
    answer_of = cluster_nodes_of;
    missing = "missing items in list_cluster_nodes_response";
  }

  -- `list_node_logged_in_users`
  abbrev pub list_node_logged_in_users : ℤ → Call J (List LoggedInUser)
  list_node_logged_in_users node_id = record {
    request = logged_in_request node_id;
    answer_of = logged_in_users_of;
    missing = "missing items in list_node_logged_in_users_response";
  }

  -- `operations_status`
  abbrev pub operations_status : Call J OperationsStatus
  operations_status = record {
    request = ok ClientBody.operations_status;
    answer_of = operations_status_of;
    missing = "missing status in operations_status_response";
  }

  -- `metrics`
  abbrev pub metrics : Call J String
  metrics = record {
    request = ok ClientBody.metrics;
    answer_of = metrics_of;
    missing = "missing text in metrics_response";
  }
