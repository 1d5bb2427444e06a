-- ===== src/Request.antt =====
-- src/agios_request.h: requests, queues of requests and files; and the constructors of
-- src/agios_add_request.c that fill them. Signed arithmetic is exact here (its overflow is undefined
-- in C). Offsets, lengths and times are natural numbers; counters that are decremented and averages
-- that start at -1 are integers. A field that the code leaves uninitialised is `none`.
use agios.Common.{ℕ, ◌+◌, List, [], Option, none, some, Bool, true, false}
use agios.Common.Int.{ℤ, pos, negsuc}

-- A file handle: the bytes of the C string, without its end.
abbrev pub FileId : Type 0
FileId = List ℕ

pub data RequestType : Type 0 where
  rt_read rt_write : RequestType

-- A `struct request_t` that stands for one request of the user.
pub record Request : Type 0 where
  pub file_id : FileId
  pub arrival_time : ℕ
  pub dispatch_timestamp : Option ℕ
  pub type : RequestType
  pub offset : ℕ
  pub len : ℕ
  pub queue_id : ℕ
  pub sw_priority : Option ℤ
  pub user_id : ℕ
  pub sched_factor : ℕ
  pub timestamp : ℕ

-- A `struct request_t` as it stands in a queue: simple (`reqnb` is 1 and `reqs_list` is empty) or
-- virtual, with its sub-requests.
pub record Queued : Type 0 where
  pub head : Request
  pub open head use *
  pub reqnb : ℕ
  pub reqs_list : List Request

abbrev pub simple : Request → Queued
simple r = record { head = r; reqnb = 1; reqs_list = [] }

pub record QueueStatistics : Type 0 where
  pub processedreq_nb : ℤ
  pub receivedreq_nb : ℤ
  pub processed_req_size : ℤ
  pub processed_bandwidth : ℤ
  pub releasedreq_nb : ℤ
  pub avg_req_size : ℤ
  pub avg_time_between_requests : ℤ
  pub avg_distance : ℤ
  pub aggs_no : ℤ
  pub avg_agg_size : Option ℤ

pub record Timespec : Type 0 where
  pub tv_sec : ℕ
  pub tv_nsec : ℕ

pub record Queue : Type 0 where
  pub list : List Queued
  pub dispatch : List Request
  pub laststartoff : ℕ
  pub lastfinaloff : ℕ
  pub predictedoff : ℕ
  pub nextquantum : ℕ
  pub shift_phenomena : ℕ
  pub better_aggregation : ℕ
  pub stats : QueueStatistics
  pub current_size : ℤ
  pub lastaggregation : ℕ
  pub best_agg : ℕ
  pub last_req_time : Option Timespec
  pub last_received_finaloffset : ℕ

pub record File : Type 0 where
  pub file_id : FileId
  pub read_queue : Queue
  pub write_queue : Queue
  pub timeline_reqnb : ℤ
  pub waiting_time : ℕ
  pub waiting_start : Option Timespec
  pub first_request_time : ℕ

unfoldable pub init_queue_statistics : QueueStatistics
init_queue_statistics = record {
  processedreq_nb = pos 0;
  receivedreq_nb = pos 0;
  processed_req_size = pos 0;
  processed_bandwidth = negsuc 0;
  releasedreq_nb = pos 0;
  avg_req_size = negsuc 0;
  avg_time_between_requests = negsuc 0;
  avg_distance = negsuc 0;
  aggs_no = pos 0;
  avg_agg_size = none;
}

unfoldable pub init_queue : Queue
unfolding init_queue_statistics
init_queue = record {
  list = [];
  dispatch = [];
  laststartoff = 0;
  lastfinaloff = 0;
  predictedoff = 0;
  nextquantum = 0;
  shift_phenomena = 0;
  better_aggregation = 0;
  stats = init_queue_statistics;
  current_size = pos 0;
  lastaggregation = 0;
  best_agg = 0;
  last_req_time = none;
  last_received_finaloffset = 0;
}

-- The handle is copied if `malloc` gives the memory.
unfoldable pub file_init : (copied : Bool) → FileId → Option File
unfolding init_queue
file_init false file_id = none
file_init true file_id = some (record {
  file_id = file_id;
  read_queue = init_queue;
  write_queue = init_queue;
  timeline_reqnb = pos 0;
  waiting_time = 0;
  waiting_start = none;
  first_request_time = 0;
})

unfoldable pub file_constructor : (allocated copied : Bool) → FileId → Option File
unfolding file_init
file_constructor false copied file_id = none
file_constructor true copied file_id = file_init copied file_id

-- What `agios_add_request` passes on to `request_constructor`.
pub record Fields : Type 0 where
  pub file_id : FileId
  pub type : RequestType
  pub offset : ℕ
  pub len : ℕ
  pub identifier : ℕ
  pub arrival_time : ℕ
  pub queue_id : ℕ

-- The new request, and `g_last_timestamp` after the call.
unfoldable pub fill_request : (g_last_timestamp : ℕ) → Fields → Request × ℕ
fill_request g f = (
  record {
    file_id = f.file_id;
    arrival_time = f.arrival_time;
    dispatch_timestamp = none;
    type = f.type;
    offset = f.offset;
    len = f.len;
    queue_id = f.queue_id;
    sw_priority = none;
    user_id = f.identifier;
    sched_factor = 0;
    timestamp = g + 1;
  },
  g + 1,
)

unfoldable pub request_constructor :
    (allocated copied : Bool) → (g_last_timestamp : ℕ) → Fields → Option (Request × ℕ)
unfolding fill_request
request_constructor false copied g f = none
request_constructor true false g f = none
request_constructor true true g f = some (fill_request g f)
