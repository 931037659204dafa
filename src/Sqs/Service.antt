-- ===== src/Sqs/Service.antt =====
-- The part of `sqsiface.SQSAPI` that queues/sqs calls, as a parameter: what each call returns is
-- any function of the calls made before it. A message always has a body, and a failed entry of a
-- batch a text, as the code relies on where it reads them through a pointer.
use vice.Base.{ℕ, List, Option, Bytes}

-- sqs.SendMessageBatchRequestEntry; the Id is the decimal text of this number.
pub record Entry : Type 0 where
  pub body : Bytes
  pub id : ℕ

-- sqs.Message
pub record Message : Type 0 where
  pub receipt_handle : Option Bytes
  pub body : Bytes

pub data Call : Type 0 where
  send_message : (url body : Bytes) → Call
  send_message_batch : (url : Bytes) → List Entry → Call
  receive_message : (url : Bytes) → Call
  delete_message : (url handle : Bytes) → Call

-- The text of each entry that failed, or an error for the whole request.
pub data BatchResponse (E : Type 0) : Type 0 where
  refused : E → BatchResponse E
  failed : List Bytes → BatchResponse E

pub data ReceiveResponse (E : Type 0) : Type 0 where
  no_answer : E → ReceiveResponse E
  messages : List Message → ReceiveResponse E

pub record Service (E : Type 0) : Type 0 where
  pub on_send : List Call → Bytes → Bytes → Option E
  pub on_batch : List Call → Bytes → List Entry → BatchResponse E
  pub on_receive : List Call → Bytes → ReceiveResponse E
  pub on_delete : List Call → Bytes → Bytes → Option E

-- What stands in a `vice.Err`: an error of the service, or `fmt.Errorf("%s", …)`.
pub data Cause (E : Type 0) : Type 0 where
  service : E → Cause E
  text : Bytes → Cause E
