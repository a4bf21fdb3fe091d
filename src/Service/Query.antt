-- ===== src/Service/Query.antt =====
-- The ways in which `srvd_service_request_query` of lib/srvd/libsrvd/service.c can go.
use srvd.Base.{ℕ, ◌≡◌, Bool, true, false, Option, none, some, List}
use srvd.Memory.{Bytes, Mem, M, ok}
use srvd.Packet.{Packet}
use srvd.Field.View.{Item}
use srvd.Packet.View.{packet_of}
use srvd.Service.{Request, Client, exchange, query_conf, query_with, query}
use srvd.Service.Numbers.{code_of, answer-code_of}

-- The conversation with a server, from a memory to the next: its status and the fields that the
-- response has then.
pub data Conversation (c : Client) (question : Packet) (its : List Item)
    : Mem → Bool → List Item → Mem → Type 0 where
  unconnected :
      {m m₁ : Mem} → c.connect m ≡ ok false m₁ → Conversation c question its m false its m₁
  unwritten :
      {m m₁ m₂ : Mem} {sent : Bytes}
      → c.connect m ≡ ok true m₁
      → c.write question m₁ ≡ ok (false, sent) m₂
      → Conversation c question its m false its m₂
  unread :
      {m m₁ m₂ m₃ : Mem} {reply : List Item} {sent : Bytes}
      → c.connect m ≡ ok true m₁
      → c.write question m₁ ≡ ok (true, sent) m₂
      → c.read sent (packet_of its) m₂ ≡ ok (false, packet_of reply) m₃
      → Conversation c question its m false reply m₃
  answered :
      {m m₁ m₂ m₃ m₄ : Mem} {reply : List Item} {clean : Bool} {sent : Bytes}
      → c.connect m ≡ ok true m₁
      → c.write question m₁ ≡ ok (true, sent) m₂
      → c.read sent (packet_of its) m₂ ≡ ok (true, packet_of reply) m₃
      → c.disconnect m₃ ≡ ok clean m₄
      → Conversation c question its m true reply m₄

exchange-Conversation :
    (c : Client) (question : Packet) (its reply : List Item) (status : Bool) (m m' : Mem)
    → Conversation c question its m status reply m'
    → exchange c question (packet_of its) m ≡ ok (status, packet_of reply) m'
unfolding exchange
exchange-Conversation c question its reply status m m' (unconnected e) = rw e
exchange-Conversation c question its reply status m m' (unwritten e e₁) = rw (e, e₁)
exchange-Conversation c question its reply status m m' (unread e e₁ e₂) = rw (e, e₁, e₂)
exchange-Conversation c question its reply status m m' (answered e e₁ e₂ e₃) = rw (e, e₁, e₂, e₃)

-- A query up to the end: the configuration, the client, the conversation, and the end of the client.
pub data Session {ℓ} {C : Type ℓ} (default_get : M (Option C)) (get_by_conf : C → M (Option Client))
    (question : Packet) (its : List Item) : Mem → Bool → List Item → Mem → Type ℓ where
  unconfigured :
      {m m₁ : Mem}
      → default_get m ≡ ok none m₁
      → Session default_get get_by_conf question its m false its m₁
  clientless :
      {m m₁ m₂ : Mem} {conf : C}
      → default_get m ≡ ok (some conf) m₁
      → get_by_conf conf m₁ ≡ ok none m₂
      → Session default_get get_by_conf question its m false its m₂
  talked :
      {m m₁ m₂ m₃ m₄ : Mem} {conf : C} {c : Client} {status : Bool} {reply : List Item}
      → default_get m ≡ ok (some conf) m₁
      → get_by_conf conf m₁ ≡ ok (some c) m₂
      → Conversation c question its m₂ status reply m₃
      → c.release m₃ ≡ ok tt m₄
      → Session default_get get_by_conf question its m status reply m₄

-- `query` returns the status of the session, and the response has the fields that the session left
-- and the status code in the first of them: a failure when there is none, and the code that it had
-- when the entry is not a code.
pub query-Session {ℓ} :
    {C : Type ℓ} (default_get : M (Option C)) (get_by_conf : C → M (Option Client))
    (request : Request) (old : ℕ) (its reply : List Item) (status : Bool) (m m' : Mem)
    → Session default_get get_by_conf request.packet its m status reply m'
    → query default_get get_by_conf request (record { packet = packet_of its; status = old }) m
      ≡ ok (status, record { packet = packet_of reply; status = code_of old reply }) m'
unfolding query query_conf query_with
query-Session default_get get_by_conf request old its reply status m m' (unconfigured {m₁ = m₁} e) =
    rw (e, answer-code_of old its m')
query-Session default_get get_by_conf request old its reply status m m' (clientless e e₁) =
    rw (e, e₁, answer-code_of old its m')
query-Session default_get get_by_conf request old its reply status m m'
      (talked {m₂ = m₂} {m₃ = m₃} {c = c} e e₁ talk freed) =
    rw (
      e,
      e₁,
      exchange-Conversation c request.packet its reply status m₂ m₃ talk,
      answer-code_of old reply m₃,
      freed,
    )
