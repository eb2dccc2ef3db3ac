-- ===== src/Context.antt =====
-- Answers to a message: the methods of `MessageMeta` in lapinbeam/context.py, over the `send` of the
-- references in lapinbeam/refs.py. The node of the metadata is the node that runs the handler.
use lapinbeam.Prelude.{
  ℕ, String, Option, none, some, Bool, true, false, ◌==◌, if◌then◌else◌, string_eq,
}
use lapinbeam.Messages.{Message, MessageMeta, stream, no_reply_to, not_started, no_peer}
use lapinbeam.Node.State.{Node, raise, Action, local_id}
use lapinbeam.Node.Refs.{Ref, actor_ref, remote_ref}
use lapinbeam.Node.Mailboxes.{send_local, send_remote}

-- `ActorRef.send` and `RemoteRef.send`
unfoldable pub send :
    Ref → Message → (reply_to : Option String) → (correlation_id : Option ℕ) → Action
send (actor_ref name) msg reply_to correlation_id n = send_local name msg reply_to correlation_id n
send (remote_ref peer actor) msg reply_to correlation_id n =
    send_remote peer actor msg reply_to correlation_id n

-- `_reply_ref`, for a message whose node is known
unfoldable pub reply_ref : (src reply_to : String) → Node → Ref
reply_ref src reply_to n = if src == local_id n then actor_ref reply_to else remote_ref src reply_to

-- A send to what `_reply_ref` gives. Where the sending node is not known, the native core refuses
-- the send.
unfoldable pub send_back : MessageMeta → Option String → Message → Action
unfolding send reply_ref
send_back meta none msg n = (raise no_reply_to, n)
send_back meta (some reply_to) msg n = elim meta.src [
  | some src ↦ send (reply_ref src reply_to n) msg none meta.correlation_id n
  | none ↦ elim n.core [ none ↦ (raise not_started, n) | some core ↦ (raise no_peer, n) ]
]

unfoldable pub reply : MessageMeta → Message → Action
unfolding send_back
reply meta msg n = send_back meta meta.reply_to msg n

-- `_send_stream`
unfoldable pub send_stream : MessageMeta → Message → (final : Bool) → Action
unfolding send_back
send_stream meta msg final n = send_back meta meta.reply_to (stream final msg) n

unfoldable pub reply_stream : MessageMeta → Message → Action
unfolding send_stream
reply_stream meta msg n = send_stream meta msg false n

unfoldable pub reply_final : MessageMeta → Message → Action
unfolding send_stream
reply_final meta msg n = send_stream meta msg true n
