-- ===== src/Common.antt =====
-- injectService/pull/src/app/common.h: the types that the parts of the pull service share.
use pull_stream.Base.{ℕ, ℤ, pos, Text, []}

-- `event_t`
pub data EventType : Type 0 where
  create_process reload_process remove_process terminate_process : EventType

-- `translate_type`: the two values of a process's `type`, which is an `int`.
abbrev pub rtmp_2_rtmp : ℤ
rtmp_2_rtmp = pos 0

abbrev pub rtsp_2_rtmp : ℤ
rtsp_2_rtmp = pos 1

-- `process_info`
pub record ProcessInfo : Type 0 where
  pub sid : Text
  pub pid : ℤ
  pub ppid : ℤ
  pub src_url : Text
  pub dest_url : Text
  pub type : ℤ
  pub status : Text
  pub host : Text

-- The constructor sets `type`; the strings are empty, and `pid` and `ppid` hold what they hold.
abbrev pub new_process_info : ℤ → ProcessInfo
new_process_info junk = record {
  sid = [];
  pid = junk;
  ppid = junk;
  src_url = [];
  dest_url = [];
  type = rtmp_2_rtmp;
  status = [];
  host = [];
}

-- `rec_event`
pub record Event : Type 0 where
  pub process : ProcessInfo
  pub type : EventType

-- `error_code`
pub data ErrorCode : Type 0 where
  error_ok stream_exist process_info_none get_collection_failed fork_failed : ErrorCode
  stream_not_exist mongodb json_parser internal port_unspecified root_path_unspecified : ErrorCode
  m3u8_path_exist json_parser_exception open_pid_file translate_type_unexcepted : ErrorCode

-- The enumerator's value.
abbrev pub error_number : ErrorCode → ℕ
error_number error_ok = 0
error_number stream_exist = 1
error_number process_info_none = 2
error_number get_collection_failed = 3
error_number fork_failed = 4
error_number stream_not_exist = 5
error_number mongodb = 6
error_number json_parser = 7
error_number internal = 8
error_number port_unspecified = 9
error_number root_path_unspecified = 10
error_number m3u8_path_exist = 11
error_number json_parser_exception = 12
error_number open_pid_file = 13
error_number translate_type_unexcepted = 14

-- `app_data`
pub record AppData : Type 0 where
  pub host : Text
  pub port : ℤ
