-- ===== src/Api/Cluster.antt =====
-- proto/private/v1/cluster_type.proto and cluster_template_type.proto: clusters and their templates. An
-- enumeration is its number, since a message may hold one that the program doesn't know.
use fulfillment_service.Common.{ℕ, List, String, Option}
use fulfillment_service.Common.Int.{ℤ}
use fulfillment_service.Utils.Maps.{Map}
use fulfillment_service.Utils.Templates.{Any, Parameter}

pub record NodeSet : Type 0 where
  pub host_class : String
  pub size : ℤ

pub record Condition : Type 0 where
  pub type : ℕ
  pub status : ℕ
  pub last_transition_time : Option ℕ
  pub reason : Option String
  pub message : Option String

pub record ClusterSpec : Type 0 where
  pub template : String
  pub template_parameters : Map Any
  pub node_sets : Map NodeSet

pub record ClusterStatus : Type 0 where
  pub state : ℕ
  pub conditions : List Condition
  pub api_url : String
  pub console_url : String
  pub node_sets : Map NodeSet
  pub hub : String

-- A cluster without its identifier and metadata.
pub record Cluster : Type 0 where
  pub spec : Option ClusterSpec
  pub status : Option ClusterStatus

pub record ClusterTemplate : Type 0 where
  pub title : String
  pub description : String
  pub parameters : List Parameter
  pub node_sets : Map NodeSet
