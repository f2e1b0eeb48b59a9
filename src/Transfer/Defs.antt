-- ===== src/Transfer/Defs.antt =====
-- client.c, server.c and messages.h of rdma/03_file-transfer/rdma-file-transfer, from the callback
-- before the connection on. The verbs library and the network are a reliable connection: what is
-- posted is delivered in order, when the other side has posted a receive, and its buffer is read then.
use mytests.Base.{ℕ, zero, suc, ◌+◌, ◌-◌, Bool, true, false, ◌&&◌, Option, none, some}
use mytests.Base.{List, [], ◌∷◌, ◌++◌, ltb, ◌==◌, if◌then◌else◌, get_or, set, take, drop, length}
use mytests.Base.Text.{c_string}
use mytests.Base.Word.{u32}
use Prim.Native.Nat.{min}

-- How a callback ends: normally, in rc_die, or with a write outside an array. `waiting` is a delivery
-- for which nothing is posted.
pub data Outcome (A : Type 0) : Type 0 where
  ok : A → Outcome A
  died overrun waiting : Outcome A

-- enum message_id, with the content of MSG_MR.
pub data Message : Type 0 where
  msg_invalid msg_ready msg_done : Message
  msg_mr : (addr rkey : ℕ) → Message

-- What the system calls of the server do: `open` of a new file, and a `write` in full.
pub record Os : Type 0 where
  pub opens : List ℕ → Bool
  pub writes : List ℕ → Bool

-- struct client_context; `reads` is what the reads of the file do, `none` an error, and behind them
-- is the end of the file; they are not limited to BUFFER_SIZE bytes.
pub record Client : Type 0 where
  pub buffer : List ℕ
  pub peer_addr : ℕ
  pub peer_rkey : ℕ
  pub reads : List (Option (List ℕ))
  pub file_name : List ℕ
  pub receives : ℕ  -- receives posted
  pub writes : List ℕ  -- the lengths of the RDMA writes posted
  pub disconnected : Bool

-- struct conn_context; `opened` and `file` are the file behind `fd`.
pub record Server : Type 0 where
  pub buffer : List ℕ
  pub addr : ℕ
  pub rkey : ℕ
  pub msg : Message
  pub file_name : List ℕ
  pub opened : Option (List ℕ)
  pub file : List ℕ
  pub receives : ℕ
  pub sends : ℕ  -- messages posted

pub record Transfer : Type 0 where
  pub client : Client
  pub server : Server

-- New bytes at the start of a buffer.
unfoldable pub copy_to : List ℕ → List ℕ → List ℕ
copy_to old bs = bs ++ drop (length bs) old

-- client.c
unfoldable pub write_remote : Client → ℕ → Client
write_remote ctx len = record ctx { writes = ctx.writes ++ (u32 len ∷ []) }

unfoldable pub client_post_receive : Client → Client
client_post_receive ctx = record ctx { receives = ctx.receives + 1 }

unfoldable pub send_file_name : Client → Client
unfolding write_remote copy_to
send_file_name ctx =
    write_remote (record ctx { buffer = copy_to ctx.buffer (ctx.file_name ++ (0 ∷ [])) })
      (length ctx.file_name + 1)

unfoldable pub send_next_chunk : Client → Outcome Client
unfolding write_remote copy_to
send_next_chunk ctx = elim ctx.reads [
  | [] ↦ ok (write_remote ctx 0)
  | r ∷ rs ↦ elim r [
    | none ↦ died
    | some bs ↦
        ok (write_remote (record ctx { buffer = copy_to ctx.buffer bs; reads = rs }) (length bs))
  ]
]

-- on_completion of a receive.
unfoldable pub client_on_completion : Client → Message → Outcome Client
unfolding send_file_name send_next_chunk client_post_receive
client_on_completion ctx (msg_mr addr rkey) =
    ok (client_post_receive (send_file_name (record ctx { peer_addr = addr; peer_rkey = rkey })))
client_on_completion ctx msg_ready = elim (send_next_chunk ctx) [
  | ok ctx' ↦ ok (client_post_receive ctx')
  | died ↦ died
  | overrun ↦ overrun
  | waiting ↦ waiting
]
client_on_completion ctx msg_done = ok (record ctx { disconnected = true })
client_on_completion ctx msg_invalid = ok (client_post_receive ctx)

-- server.c
abbrev pub max_file_name : ℕ
max_file_name = 256

unfoldable pub send_message : Server → Message → Server
send_message ctx m = record ctx { msg = m; sends = ctx.sends + 1 }

unfoldable pub post_receive : Server → Server
post_receive ctx = record ctx { receives = ctx.receives + 1 }

-- The branch for the file's name.
unfoldable pub receive_name : Os → Server → ℕ → Outcome Server
unfolding send_message post_receive copy_to
receive_name os ctx size =
    let copied = copy_to ctx.file_name (take (min size max_file_name) ctx.buffer) in
    let name = set copied (size - 1) 0 in
    if ltb max_file_name size
    then overrun
    else if os.opens (c_string name)
    then ok (
        send_message (post_receive (record ctx { file_name = name; opened = some (c_string name) }))
          msg_ready)
    else died

-- The branch for a chunk.
unfoldable pub receive_chunk : Os → Server → ℕ → Outcome Server
unfolding send_message post_receive
receive_chunk os ctx size =
    let chunk = take size ctx.buffer in
    if os.writes chunk
    then ok (send_message (post_receive (record ctx { file = ctx.file ++ chunk })) msg_ready)
    else died

-- on_completion of IBV_WC_RECV_RDMA_WITH_IMM.
unfoldable pub server_on_completion : Os → Server → ℕ → Outcome Server
unfolding receive_name receive_chunk send_message
server_on_completion os ctx size =
    if size == 0
    then ok (send_message ctx msg_done)
    else if get_or ctx.file_name 0 0 == 0
    then receive_name os ctx size
    else receive_chunk os ctx size

-- The network: the delivery of the oldest RDMA write, into the region whose address and key the client has.
unfoldable pub deliver_write : Os → Transfer → ℕ → List ℕ → Outcome Transfer
unfolding server_on_completion copy_to
deliver_write os t len later = elim t.server.receives [
  | zero ↦ waiting
  | suc left ↦
      if t.client.peer_addr == t.server.addr && t.client.peer_rkey == t.server.rkey
      then elim (server_on_completion os
          (record t.server {
            buffer = copy_to t.server.buffer (take len t.client.buffer);
            receives = left;
          })
          len) [
            | ok s ↦ ok (record { client = record t.client { writes = later }; server = s })
            | died ↦ died
            | overrun ↦ overrun
            | waiting ↦ waiting
          ]
      else died
]

-- The network: the delivery of a message of the server.
unfoldable pub deliver_message : Transfer → Outcome Transfer
unfolding client_on_completion
deliver_message t = elim t.server.sends [
  | zero ↦ waiting
  | suc left ↦ elim t.client.receives [
    | zero ↦ waiting
    | suc left' ↦ elim (client_on_completion (record t.client { receives = left' }) t.server.msg) [
      | ok c ↦ ok (record { client = c; server = record t.server { sends = left } })
      | died ↦ died
      | overrun ↦ overrun
      | waiting ↦ waiting
    ]
  ]
]

-- The next delivery.
unfoldable pub deliver : Os → Transfer → Outcome Transfer
unfolding deliver_write deliver_message
deliver os t = elim t.client.writes [
  | [] ↦ deliver_message t
  | len ∷ later ↦ deliver_write os t len later
]

-- Deliveries up to the client's rc_disconnect, at most as many as the fuel says.
unfoldable pub run : Os → ℕ → Transfer → Outcome Transfer
unfolding deliver
run os zero t = waiting
run os (suc fuel) t = if t.client.disconnected then ok t else elim (deliver os t) [
  | ok t' ↦ run os fuel t'
  | died ↦ died
  | overrun ↦ overrun
  | waiting ↦ waiting
]

-- The state behind on_pre_conn of both sides and on_connection of the server, with the address and
-- the key of the server's buffer; `memory` is what `malloc` and posix_memalign return.
unfoldable pub connected :
    (addr rkey : ℕ) → List (Option (List ℕ)) → List ℕ → (memory : List ℕ) → Transfer
connected addr rkey reads name memory = record {
  client = record {
    buffer = memory;
    peer_addr = 0;
    peer_rkey = 0;
    reads = reads;
    file_name = name;
    receives = 1;
    writes = [];
    disconnected = false;
  };
  server = record {
    buffer = memory;
    addr = addr;
    rkey = rkey;
    msg = msg_mr addr rkey;
    file_name = set (take max_file_name memory) 0 0;
    opened = none;
    file = [];
    receives = 1;
    sends = 1;
  };
}
