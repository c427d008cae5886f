-- ===== src/Tests/Connection.antt =====
-- A connection with one request, on a core that lets it through.
use greylist.Base.{◌+◌, ℕ, ◌≡◌, true, false, [], some, ok, codes, ◌≤◌, arith}
use greylist.Action.Answers.{create_returns}
use greylist.Core.{dunno}
use greylist.Server.Handle.{Handler, Setting, handle}
use greylist.Server.Handle.Ends.{handle_returns}
use greylist.Server.Handle.Limit.{handle_limit}
use greylist.Server.SocketReader.{open_socket, closed}

abbrev setting : Setting ℕ
setting = record {
  core = λ s. (ok dunno, s);
  action =
      (create_returns true (codes "defer_if_permit later") (codes "dunno") (codes "dunno") 0).0;
  max_requests = 100;
  interrupted = λ w. (false, w);
  signalled = λ w. false;
  write = λ text w. (true, w + 1);
}

abbrev connection : Handler ℕ
unfolding open_socket
connection = record {
  reader =
      open_socket
        (codes
          "client_address=192.0.2.17\nsender=a@b\nrecipient=c@d\nreverse_client_name=x\nclient_name=x\n\n")
        closed;
  world = 0;
  handled = 0;
  all_handled = 0;
  log = [];
  down = false;
}

handle_returns_example : (last : Handler ℕ) × (handle setting connection ≡ some last)
handle_returns_example = handle_returns setting connection

handle_limit_example : (handle_returns setting connection).0.handled ≤ 100
unfolding connection
handle_limit_example =
    handle_limit setting connection (handle_returns setting connection).0 (omega arith)
      (handle_returns setting connection).1
