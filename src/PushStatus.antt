-- ===== src/PushStatus.antt =====
-- pkg/pushstatus/pushstatus.go: the layers of a push, and how far each one is. The status tracker
-- is containerd's: what it knows of a ref is a parameter. A time is a number of nanoseconds since
-- the year 1970.
pub mod Laws
use k3c.Prelude.{ℕ, Bool, true, false, Option, none, some, List, [], ◌∷◌, ◌++◌, map, leb}
use k3c.Prelude.{if◌then◌else◌}
use k3c.Prelude.Text.{Text, codes, is_empty}
use k3c.Prelude.Maps.{Map, lookup, insert}
use k3c.Prelude.Int.{ℤ, pos, negsuc}

-- time.Time{}, the first of January of the year 1
abbrev pub zero_time : ℤ
zero_time = negsuc 62135596799999999999

-- docker.Status, as far as it is read; `none` from the tracker is an error.
pub record Upload : Type 0 where
  pub offset : ℕ
  pub total : ℕ
  pub started_at : ℤ
  pub updated_at : ℤ
  pub upload_uuid : Text

abbrev pub Tracker : Type 0
Tracker = Text → Option Upload

-- status.Info of pkg/status
pub record Info : Type 0 where
  pub ref : Text
  pub status : Text
  pub offset : ℕ
  pub total : ℕ
  pub started_at : ℤ
  pub updated_at : ℤ

-- The set of refs, and the refs in order of arrival.
pub record PushJobs : Type 0 where
  pub jobs : Map (Unit {0})
  pub ordered : List Text

unfoldable pub new_push_jobs : PushJobs
new_push_jobs = record { jobs = []; ordered = [] }

unfoldable pub add : Text → PushJobs → PushJobs
add ref j = elim (lookup ref j.jobs) [
  | some _ ↦ j
  | none ↦ record { jobs = insert ref tt j.jobs; ordered = j.ordered ++ ref ∷ [] }
]

abbrev upload_status : Upload → Text
upload_status u =
    if leb u.total u.offset
    then (if is_empty u.upload_uuid then codes "done" else codes "committing")
    else codes "uploading"

unfoldable pub job_info : Text → Option Upload → Info
job_info name none = record {
  ref = name;
  status = codes "waiting";
  offset = 0;
  total = 0;
  started_at = zero_time;
  updated_at = zero_time;
}
job_info name (some u) = record {
  ref = name;
  status = upload_status u;
  offset = u.offset;
  total = u.total;
  started_at = u.started_at;
  updated_at = u.updated_at;
}

unfoldable pub status : Tracker → PushJobs → List Info
unfolding job_info
status tracker j = map (λ name. job_info name (tracker name)) j.ordered
