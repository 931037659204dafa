-- ===== src/Lib.antt =====
-- vice: Go channels over message queues. A transport (transport.go) gives channels by name: `Send` and
-- `Receive` return the channel of a name and start the goroutine behind it, `ErrChan` carries errors,
-- `Stop` ends the goroutines and closes the channel that `Done` returns.
--
-- The files, and the code that they are about:
--   Base                 shared names, tests, lists, byte strings, maps
--   Transport            transport.go: the error type and its text
--   Backoff              backoff/backoff.go: Do
--   Hub                  the state and the text of Send and Receive, the same in every transport
--   Hub/Runs             runs of any transport: calls, events of its goroutines and Stop, in any order
--   Hub/Logs             the events of each goroutine, read off a run
--   Hub/Waiting          where in a run the wait of Stop ends
--   Relay                the sending goroutine of queues/redis/redis.go, and all of them under Stop
--   Redis                queues/redis: options, newConnection, New, Send, Receive, Stop, Done
--   Redis/Subscriber     queues/redis/redis.go: makeSubscriber, the receiving goroutine
--   Nats                 queues/nats: options, both connections, New, Send, Receive, Stop, Done
--   Rabbitmq             queues/rabbitmq: option, newConnection, makers, Send, Receive, Stop, Done
--   Rabbitmq/Sending     queues/rabbitmq/rabbitmq.go: makePublisher, the sending goroutine
--   Rabbitmq/Consuming   queues/rabbitmq/rabbitmq.go: makeSubscriber, the receiving goroutine
--   Nsq                  queues/nsq/nsq.go: New, both makers, Send, Receive, Stop, Done
--   Nsq/Producing        queues/nsq/nsq.go: makeProducer, the sending goroutine
--   Nsq/Consuming        queues/nsq/nsq.go: makeConsumer, the handler of messages
--   Sqs/Service          the calls of Amazon's client that queues/sqs makes, a parameter
--   Sqs/Region           queues/sqs/sqs.go: RegionFromURL
--   Sqs/Publisher        queues/sqs/sqs.go: makePublisher and sendBatch, the sending goroutine
--   Sqs/Subscriber       queues/sqs/sqs.go: makeSubscriber, the receiving goroutine
--   Sqs/Transport        queues/sqs/sqs.go: New, Send, Receive, Stop, Done
--   Multi                queues/sqs/multi_writer.go: NewMulti, both makers, Send, Receive, Stop, Done
--   Multi/Batching       queues/sqs/multi_writer.go: makePublishers, the batching goroutine
--   Multi/Group          queues/sqs/multi_writer.go: newWriterGroup and svcWriter
--   Multi/Wiring         queues/sqs/multi_writer.go: a batching goroutine with its writers
--   Fake                 queues/sqs/sqsfakes/fake_sqsapi.go: the fake service, four of its methods
--   Fake/Calling         queues/sqs/sqsfakes/fake_sqsapi.go: the text that is the same for each method
--   Greeter              example/greeter/service/main.go: Greeter, and the calls of main before it
--
-- State is passed explicitly. A goroutine is a step function over its state, one iteration of its loop
-- to a step; a list of events is one interleaving of it with clients, the clock and `Stop`, and the
-- theorems hold for every list. A step that cannot happen, a blocked send and a panic are `none`. What
-- a service returns is any function of the calls made on it so far. In a goroutine an error counts as
-- sent when the error channel has taken it (the producer of Nsq has the wait for that as a state); in
-- `Send` and `Receive` the buffer of ten is modelled. Nothing here says that a goroutine goes on while
-- errors are unread. Each call of `Send` or `Receive` is one step, as its mutex makes it; while such a
-- call stands still, other calls, which in the code wait for the mutex, are not ruled out. `Stop` is
-- more than one step in every transport, and calls and events may come between its beginning, the end
-- of its wait and what follows that (in Nats only events, as `Stop` holds the mutex there).
--
-- Numbers are natural numbers; backoff works on the bit patterns of int64. Sizes of batches are not
-- negative (a negative one makes `make` panic). `do_loop` takes fuel, one unit for each call of the
-- function; `do_retry` returns when the fuel reaches the limit on calls or passes the first success.
-- `make_consumer` of Nsq, whose retries have no limit, returns when its fuel passes the first success.
--
-- A client library of a queue is a parameter: what its calls return is a function of the number of the
-- call or of the calls before it. The server behind it is modelled only in Redis/Subscriber/Reversal,
-- by its lists.
--
-- A channel without a buffer makes a send and its receive one step of both goroutines; so it is between
-- the batching goroutine, the dispatcher and the writers of Multi. The pause of 50 ms before a batching
-- goroutine returns is a phase of it that may end at any time.
--
-- Not modelled: the other methods of the generated fake service, which repeat the text of the four
-- modelled; the test suite, the example client, log lines and the passing of time.
pub mod Base
pub mod Transport
pub mod Backoff
pub mod Hub
pub mod Relay
pub mod Redis
pub mod Nats
pub mod Rabbitmq
pub mod Nsq
pub mod Sqs
pub mod Multi
pub mod Fake
pub mod Greeter
