-- ===== src/Server/Types.antt =====
-- The structs of mimino.h and dir.h that the server keeps. A descriptor is `none` for -1. A
-- connection's `pollfd` pointer is left out: nothing reads it.
use mimino.Base.{ℕ, Bool, Bytes, List, Option}
use mimino.Buffer.{Buffer}
use mimino.Http.Request.Reader.{Request}

-- the bits POLLIN and POLLOUT
pub record PollEvents : Type 0 where
  pub pollin : Bool
  pub pollout : Bool

pub record PollFd : Type 0 where
  pub fd : Option ℕ
  pub events : PollEvents
  pub revents : PollEvents

pub record File : Type 0 where
  pub name : Bytes
  pub last_mod : ℕ
  pub mode : ℕ
  pub size : ℕ
  pub is_dir : Bool
  pub is_link : Bool
  pub is_broken_link : Bool
  pub is_null : Bool

-- A body whose data is NULL is `none`. `range_start` and `range_end` are `none` where they were
-- not set.
pub record Response : Type 0 where
  pub head : Buffer
  pub head_nbytes_sent : ℕ
  pub body : Option Buffer
  pub body_nbytes_sent : ℕ
  pub file : File
  pub file_offset : ℕ
  pub file_nbytes_sent : ℕ
  pub file_path : Option Bytes
  pub range_start : Option ℕ
  pub range_end : Option ℕ
  pub error : Bool

-- A request's buffer, and the fields parsed from it.
pub record PendingRequest : Type 0 where
  pub buf : Buffer
  pub fields : Request

pub data ConnState : Type 0 where
  reading writing_headers writing_body writing_finished closing : ConnState

pub record Connection : Type 0 where
  pub fd : Option ℕ
  pub req : Option PendingRequest
  pub res : Option Response
  pub read_tries_left : ℕ
  pub write_tries_left : ℕ
  pub keep_alive : Bool
  pub state : ConnState
  pub last_active : ℕ

-- The two arrays, as the lists of their slots; `none` is a slot never written.
pub record PollQueue : Type 0 where
  pub pollfds : List (Option PollFd)
  pub conns : List (Option Connection)
  pub n_conns : ℕ
  pub n_conns_alloc : ℕ
