-- ===== src/Record/Sample.antt =====
-- A small message for the tests.
use mnemosia.Prelude.{String, false, [], none}
use mnemosia.Record.Message.{Message, part, empty, more}

abbrev pub message : String → Message
message id = record {
  id = id;
  role = "user";
  parts =
      more
        (part
          (record {
            type = "text";
            text = "hello";
            signature = "";
            call_id = "";
            name = "";
            input = [];
            is_error = false;
            media_type = "";
            ref = "";
            filename = "";
            bytes = 0;
            sha256 = "";
            uri = "";
            ext = [];
          })
          empty)
        empty;
  created = none;
  parent = "";
  meta = record {
    model = "";
    stop_reason = "";
    usage = record {
      input_tokens = 0;
      output_tokens = 0;
      cache_read_tokens = 0;
      cache_write_tokens = 0;
      reasoning_tokens = 0;
    };
    agent = "";
    skill = "";
    memory_refs = [];
  };
  ext = [];
}
