-- ===== src/World.antt =====
-- The state behind one context (the structs of c/src/t2u_internal.h), with an explicit heap: a
-- pointer is a number, and a session or a rule that was freed is not in the heap any more.
pub mod Monad
pub mod Laws
use t2u.Common.{ℕ, Bool, Option, List}
use t2u.Rbtree.Dict.{Dict}
use t2u.Compare.{uint_ord, name_ord}
use t2u.Wire.Words.{Platform}
use t2u.Wire.Message.{MessageData}

abbrev pub Ptr : Type 0
Ptr = ℕ

-- The callbacks that the program binds to events of a session.
pub data Callback : Type 0 where
  connect_timeout connect_success process_tcp timeout_check : Callback

-- `t2u_event` of a session: what its two events call, if they are set.
pub record SessionEvent : Type 0 where
  pub event : Option Callback
  pub extra_event : Option Callback

-- `t2u_message` in a send queue. `content` is the packed struct; the timer is part of the message.
pub record Message : Type 0 where
  pub content : MessageData
  pub len : ℕ
  pub seq : ℕ
  pub send_retries : ℕ

-- `t2u_message` in a receive queue: only these two fields are set there.
pub record Received : Type 0 where
  pub content : MessageData
  pub len : ℕ

-- `status_`: 0 for non, 1 for connecting, 2 for establish, 3 for closing
abbrev pub connecting : ℕ
connecting = 1

abbrev pub established : ℕ
established = 2

abbrev pub closing : ℕ
closing = 3

pub record Session : Type 0 where
  pub rule : Ptr
  pub sock : ℕ
  pub handle : ℕ
  pub status : ℕ
  pub send_buffer_count : ℕ
  pub send_seq : ℕ
  pub send_mess : Dict ℕ Message
  pub recv_buffer_count : ℕ
  pub recv_seq : ℕ
  pub recv_mess : Dict ℕ Received
  pub connect_retries : ℕ
  pub ev : Option SessionEvent
  pub retry_seq : ℕ
  pub last_send_ts : ℕ

pub data ForwardMode : Type 0 where
  forward_client_mode forward_server_mode : ForwardMode

-- `t2u_rule`. The sessions are keyed by handle.
pub record Rule : Type 0 where
  pub mode : ForwardMode
  pub listen_sock : ℕ
  pub service : List ℕ
  pub sessions : Dict ℕ Ptr
  pub connecting_sessions : Dict ℕ Ptr

-- `t2u_context`
pub record Context : Type 0 where
  pub sock : ℕ
  pub rules : Dict (List ℕ) Ptr
  pub utimeout : ℕ
  pub uretries : ℕ
  pub udp_slide_window : ℕ
  pub session_timeout : ℕ

-- What the program does to the world outside.
pub data Effect : Type 0 where
  udp_sent : List ℕ → Effect
  tcp_sent : ℕ → List ℕ → Effect
  closed : ℕ → Effect
  connects : ℕ → Effect
  timer_added : ℕ → Effect
  unknown_packet : List ℕ → Effect

pub record World : Type 0 where
  pub platform : Platform
  pub context : Context
  pub rule_heap : Ptr → Option Rule
  pub session_heap : Ptr → Option Session
  pub handle_seq : ℕ
  pub has_unknown_callback : Bool
  pub now : ℕ
  pub effects : List Effect

-- The result of a socket call: a count, or -1 with an `errno` that asks to try again, or -1 with
-- another.
pub data IoResult : Type 0 where
  count : ℕ → IoResult
  would_block failed : IoResult
