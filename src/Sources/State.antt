-- ===== src/Sources/State.antt =====
-- plugins/sources/kstate: helper.go, and the handlers of the objects that are counted. The points that a
-- handler makes of one object share one map of tags. An int32 is the 64 bits of its value.
pub mod Pods
pub mod Scrape
use Prim.Native.String.{◌++◌}
use wavefront_collector_for.Prelude.{
  ℕ, String, List, [], ◌∷◌, Option, none, some, Bool, true, false, not, ◌==◌, ◌&&◌, ◌||◌,
  if◌then◌else◌,
}
use wavefront_collector_for.Prelude.Maps.{Map, insert, copy_into}
use wavefront_collector_for.Float64.{Float64}

pub record Transforms : Type 0 where
  pub prefix : String
  pub source : String
  pub tags : Map String

-- points that share their tags: their names, without the prefix, and their values
pub record Group (F : Type 0) : Type 0 where
  pub tags : Map String
  pub readings : List (String × F)

-- the objects of apps/v1, batch/v1 and autoscaling, as far as they are read
pub record Replicated : Type 0 where
  pub name : String
  pub namespace : String
  pub replicas : Option ℕ
  pub available_replicas : ℕ
  pub ready_replicas : ℕ

pub record StatefulSet : Type 0 where
  pub name : String
  pub namespace : String
  pub replicas : Option ℕ
  pub ready_replicas : ℕ
  pub current_replicas : ℕ
  pub updated_replicas : ℕ

pub record DaemonSet : Type 0 where
  pub name : String
  pub namespace : String
  pub current_number_scheduled : ℕ
  pub desired_number_scheduled : ℕ
  pub number_misscheduled : ℕ
  pub number_ready : ℕ

pub record Job : Type 0 where
  pub name : String
  pub namespace : String
  pub active : ℕ
  pub failed : ℕ
  pub succeeded : ℕ
  pub completions : Option ℕ
  pub parallelism : Option ℕ

-- with the number of its active jobs
pub record CronJob : Type 0 where
  pub name : String
  pub namespace : String
  pub active : ℕ

pub record HorizontalPodAutoscaler : Type 0 where
  pub name : String
  pub namespace : String
  pub max_replicas : ℕ
  pub min_replicas : Option ℕ
  pub current_replicas : ℕ
  pub desired_replicas : ℕ

-- for k, v := range srcTags { tags[k] = v }, behind the name and the namespace
unfoldable pub build_tags : String → String → String → Map String → Map String
build_tags key name ns src_tags =
    copy_into src_tags
      (if not (ns == "") then insert "namespace_name" ns ((key, name) ∷ []) else (key, name) ∷ [])

unfoldable pub copy_labels : Map String → Map String → Map String
copy_labels [] out = out
copy_labels ((key, value) ∷ labels) out =
    copy_labels labels
      (if not (key == "") && not (value == "") then insert ("label." ++ key) value out else out)

unfoldable pub copy_tags : Map String → Map String → Map String
copy_tags [] out = out
copy_tags ((key, value) ∷ tags) out =
    copy_tags tags (if not (key == "") && not (value == "") then insert key value out else out)

module _ {F : Type 0} ⦃f : Float64 F⦄ where
  unfoldable pub float_val : Option ℕ → F → F
  float_val none default = default
  float_val (some n) default = f.of_int64 n

  abbrev pub minus_one : F
  minus_one = f.sub f.zero f.one

  module _ (t : Transforms) where
    -- the deployments, replica sets and replication controllers, by the name of their kind
    unfoldable pub points_for_replicated : String → Replicated → Group F
    unfolding build_tags float_val
    points_for_replicated kind r = record {
      tags = build_tags kind r.name r.namespace t.tags;
      readings =
          (kind ++ ".desired_replicas", float_val r.replicas f.one)
          ∷ (kind ++ ".available_replicas", f.of_int64 r.available_replicas)
          ∷ (kind ++ ".ready_replicas", f.of_int64 r.ready_replicas)
          ∷ [];
    }

    unfoldable pub points_for_stateful_set : StatefulSet → Group F
    unfolding build_tags float_val
    points_for_stateful_set ss = record {
      tags = build_tags "statefulset" ss.name ss.namespace t.tags;
      readings =
          ("statefulset.desired_replicas", float_val ss.replicas f.one)
          ∷ ("statefulset.current_replicas", f.of_int64 ss.current_replicas)
          ∷ ("statefulset.ready_replicas", f.of_int64 ss.ready_replicas)
          ∷ ("statefulset.updated_replicas", f.of_int64 ss.updated_replicas)
          ∷ [];
    }

    unfoldable pub points_for_daemon_set : DaemonSet → Group F
    unfolding build_tags
    points_for_daemon_set ds = record {
      tags = build_tags "daemonset" ds.name ds.namespace t.tags;
      readings =
          ("daemonset.current_scheduled", f.of_int64 ds.current_number_scheduled)
          ∷ ("daemonset.desired_scheduled", f.of_int64 ds.desired_number_scheduled)
          ∷ ("daemonset.misscheduled", f.of_int64 ds.number_misscheduled)
          ∷ ("daemonset.ready", f.of_int64 ds.number_ready)
          ∷ [];
    }

    unfoldable pub points_for_job : Job → Group F
    unfolding build_tags float_val
    points_for_job job = record {
      tags = build_tags "job" job.name job.namespace t.tags;
      readings =
          ("job.active", f.of_int64 job.active)
          ∷ ("job.failed", f.of_int64 job.failed)
          ∷ ("job.succeeded", f.of_int64 job.succeeded)
          ∷ ("job.completions", float_val job.completions minus_one)
          ∷ ("job.parallelism", float_val job.parallelism minus_one)
          ∷ [];
    }

    unfoldable pub points_for_cron_job : CronJob → Group F
    unfolding build_tags
    points_for_cron_job job = record {
      tags = build_tags "cronjob" job.name job.namespace t.tags;
      readings = ("cronjob.active", f.of_int64 job.active) ∷ [];
    }

    unfoldable pub points_for_hpa : HorizontalPodAutoscaler → Group F
    unfolding build_tags float_val
    points_for_hpa hpa = record {
      tags = build_tags "hpa" hpa.name hpa.namespace t.tags;
      readings =
          ("hpa.max_replicas", f.of_int64 hpa.max_replicas)
          ∷ ("hpa.min_replicas", float_val hpa.min_replicas f.one)
          ∷ ("hpa.current_replicas", f.of_int64 hpa.current_replicas)
          ∷ ("hpa.desired_replicas", f.of_int64 hpa.desired_replicas)
          ∷ [];
    }
