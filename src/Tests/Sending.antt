-- ===== src/Tests/Sending.antt =====
-- A ping reply that is sent in pieces of three bytes, behind two bytes that wait.
use theme_srv.Common.{◌≡◌, refl, [], ◌∷◌, ◌++◌, some, Bytes, arith}
use theme_srv.Protocol.Messages.{ping_reply}
use theme_srv.Protocol.Message.{IsMessage, fixed}
use theme_srv.Io.ClientBase.{ClientBase, WriteState}
use theme_srv.Io.Write.{enqueue_write, pump_write}
use theme_srv.Io.Write.Stream.{IsSending, AreSending, Keeps, stream, pump_write-Keeps}
use theme_srv.Io.Write.Enqueue.{enqueue_write-stream}
use theme_srv.Tests.{counting, counting-IsStream, connected}
use theme_srv.Tests.Receiving.{ping_body, ping_body-IsMessage}

abbrev reply : Bytes
reply = (0 ∷ 0 ∷ []) ++ ping_body

pub reply-IsMessage : IsMessage (ping_reply.fields) reply
reply-IsMessage = fixed (0 ∷ 0 ∷ []) refl (omega arith) refl ping_body-IsMessage

abbrev waiting : WriteState
waiting = record { bufoffs = 1; bufsz = 3; buf = 4 ∷ 5 ∷ 6 ∷ [] }

abbrev writer : ClientBase counting
writer = record (connected []) { writes = waiting ∷ waiting ∷ [] }

writer-AreSending : AreSending (writer.writes)
writer-AreSending =
    let w : IsSending waiting = record {
      size_is = refl;
      within = omega arith;
      small = omega arith;
    } in
    (w, (w, tt))

enqueue_write-stream_example :
    (cli' : ClientBase counting) × (enqueue_write writer ping_reply (reply ++ 1 ∷ []) ≡ some cli')
    × (stream cli' ≡ stream writer ++ reply)
    × (cli'.encrypt ≡ 17)
    × AreSending cli'.writes
enqueue_write-stream_example =
    enqueue_write-stream counting-IsStream writer ping_reply reply (1 ∷ []) reply-IsMessage
      (omega arith) writer-AreSending

pump_write-Keeps_example :
    (cli' : ClientBase counting) × (pump_write writer ≡ some cli') × Keeps writer cli'
pump_write-Keeps_example = pump_write-Keeps writer writer-AreSending
