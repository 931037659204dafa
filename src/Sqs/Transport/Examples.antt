-- ===== src/Sqs/Transport/Examples.antt =====
-- A transport with one publisher from `New` to `Done`, and the theorems about it.
use vice.Base.{ℕ, ◌≡◌, refl, true, List, [], ◌∷◌, ◌++◌, none, Bytes, codes, arith}
use vice.Hub.Runs.{Action, sends, moves, stop_start, wait_end, stop_end}
use vice.Sqs.Service.{Service, send_message, failed, messages}
use vice.Sqs.Publisher.{Event, client_send, case_message, case_stop, Publisher}
use vice.Sqs.Region.{region_from_url, region_between_dots}
use vice.Sqs.Transport.{NewService, new_service, SqsHub, default_interval}

abbrev host : Bytes
host = codes "https://sqs"

abbrev region : Bytes
region = codes "us-west-2"

region_between_dots_example :
    region_from_url (host ++ (b'.' ∷ (region ++ (b'.' ∷ codes "amazonaws.com/1/q")))) ≡ region
region_between_dots_example =
    region_between_dots host region (codes "amazonaws.com/1/q") (omega arith) (omega arith)

region_runs :
    region_from_url (codes "https://sqs.us-west-2.amazonaws.com/123/q") ≡ codes "us-west-2"
unfolding region_from_url
region_runs = refl

abbrev silent : Service ℕ
silent = record {
  on_send = λ before url body. none;
  on_batch = λ before url entries. failed [];
  on_receive = λ before url. messages [];
  on_delete = λ before url handle. none;
}

-- From `New` to the end of `Stop`, without batches.
abbrev up : ℕ → Bytes → NewService ℕ
up call name = new_service silent

abbrev path : List (Action (ℕ × Event))
path =
    sends (codes "q")
    ∷ moves (0, client_send (codes "a"))
    ∷ moves (0, case_message 1)
    ∷ stop_start
    ∷ moves (0, case_stop)
    ∷ wait_end
    ∷ moves (0, client_send (codes "b"))
    ∷ stop_end
    ∷ []

abbrev done_state : Publisher ℕ
done_state = record {
  pending = codes "b" ∷ [];
  stopping = true;
  accum = [];
  calls = send_message (codes "q") (codes "a") ∷ [];
  errs = [];
  exited = true;
}

abbrev after_done : SqsHub ℕ
after_done = record {
  send_chans = (codes "q", 0) ∷ [];
  receive_chans = [];
  err_chan = [];
  chans = 1;
  own = record {
    batch_size = 0;
    batch_interval = default_interval;
    publishers = record { name = codes "q"; chan = 0; svc = silent; state = done_state } ∷ [];
    subscribers = [];
    stop_sub_chan = true;
    stop_pub_chan = true;
    waited = true;
    stopchan = true;
    services = 1;
  };
}
