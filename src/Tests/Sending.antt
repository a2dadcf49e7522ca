-- ===== src/Tests/Sending.antt =====
-- Two requests, the second a COPY whose data comes late, on a stream of three bytes a write.
use may_postgres.Base.{[], ◌∷◌, ◌++◌, refl, false, arith, Bytes}
use may_postgres.Protocol.{Frontend}
use may_postgres.Connection.Sender.{
  Channel, end, got, empty, raw, copy_data, message, done, single, copy_in, Request, trying, Sender,
  send_loop,
}
use may_postgres.Connection.Sender.Reaches.{handed, IsOpen, Reaches}
use may_postgres.Connection.Sender.Order.{send_loop-Sends}
use may_postgres.Connection.Sender.Requests.{all_bytes, senders}
use may_postgres.Tests.Buffers.{slow}

abbrev frontend : Frontend
frontend = record {
  write_copy_data = λ bytes. b'd' ∷ bytes;
  copy_done = b'c' ∷ [];
  copy_fail = λ text. b'f' ∷ text;
  sync = b'S' ∷ [];
}

abbrev fresh : Sender Bytes
fresh = record {
  rsp_queue = [];
  writer = record { block = 0; pos = 0; bufs = []; io_slice = λ i. []; writer = [] };
}

fresh-IsOpen : IsOpen slow fresh
fresh-IsOpen = record {
  ready = record {
    valid = record { block_le = omega arith; fits = refl; slices = refl };
    busy = λ _. refl;
  };
  room = omega arith;
}

abbrev requests : Channel Request
requests =
    got (record { messages = single (raw (b'Q' ∷ [])); sender = 7 })
      (empty (
        got
          (record {
            messages = copy_in (got (message (copy_data (1 ∷ 2 ∷ []))) (empty (got done end)));
            sender = 8;
          })
          (empty (empty end))))

send_loop-Sends_example :
    Reaches slow 0 false
      (handed slow fresh ++ all_bytes frontend requests)
      (fresh.rsp_queue ++ senders frontend requests)
      (send_loop slow frontend 0 trying requests fresh)
send_loop-Sends_example = send_loop-Sends slow frontend 0 requests fresh fresh-IsOpen
