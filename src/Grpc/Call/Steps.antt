-- ===== src/Grpc/Call/Steps.antt =====
-- Sequences of the operations of one call, with what the carrier answers to each.
use argos.Base.{ℕ, List, [], ◌∷◌, Option}
use argos.Base.Bytes.{Bytes}
use argos.Status.{Code, Error}
use argos.Grpc.Details.{Proto, ProtoStatus}
use argos.Grpc.Call.{Fault, State, Answer}
use argos.Grpc.Call.Sending.{send_headers, send, half_close, finish}
use argos.Grpc.Call.Receiving.{Response, recv, close}

pub data Op : Type 0 where
  call_send_headers : Answer → Op
  call_send : Bytes → Answer → Option Fault → Op
  call_half_close : Answer → Op
  call_finish : Option Error → Answer → Op
  call_recv : Response → Op
  call_close : Op

module _ (proto : Proto) (shows : ℕ → Bytes) (mismatch : Code → Bytes → ProtoStatus → Bytes)
    (quote : Bytes → Bytes) where
  unfoldable pub step : Op → State → State
  step (call_send_headers a) st = (send_headers st a).0
  step (call_send p a b) st = (send shows st p a b).0
  step (call_half_close a) st = (half_close st a).0
  step (call_finish e a) st = (finish proto shows mismatch st e a).0
  step (call_recv r) st = (recv proto shows mismatch quote st r).0
  step call_close st = close st

  unfoldable pub steps : List Op → State → State
  steps [] st = st
  steps (op ∷ ops) st = steps ops (step op st)
