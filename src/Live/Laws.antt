-- ===== src/Live/Laws.antt =====
-- What src/live.cpp relies on in the clock, the network library and the JSON texts.
use bengal_market.AtomicOutput.{FileSystem}
use bengal_market.AtomicOutput.Posix.{IsPosix}
use bengal_market.Base.{Bytes, length, some, true, ℕ, ◌<◌, ◌≡◌, ◌≤◌}
use bengal_market.Live.{
  CaptureOptions, Network, frame_value, is_again, maximum_message_size, metadata_value,
  subscribe_value,
}

-- A call that has nothing to do with the files: it leaves them, and no meter goes the wrong way.
pub record Quiet {F : FileSystem} (V : IsPosix F) (clock budget : F.World → ℕ) (w w' : F.World)
    : Type 0 where
  pub same_content : (q : Bytes) → V.content q w' ≡ V.content q w
  pub same_opened : (fd : F.Fd) → V.opened fd w' ≡ V.opened fd w
  pub patience_le : V.patience w' ≤ V.patience w
  pub clock_le : clock w ≤ clock w'
  pub budget_le : budget w' ≤ budget w

pub record IsNetwork {F : FileSystem} (V : IsPosix F) (N : Network F) : Type 0 where
  -- The steady clock, which every reading advances, and how often a send may still be put off.
  pub clock : F.World → ℕ
  pub budget : F.World → ℕ
  -- No text that the JSON library makes is longer, for a message within the limit.
  pub longest_text : CaptureOptions → ℕ
  pub now_lem : (w : F.World) → (N.now w).0 ≡ clock w
  pub now_ticks : (w : F.World) → clock w < clock (N.now w).1
  pub now_quiet : (w : F.World) → Quiet V clock budget w (N.now w).1
  pub wall_quiet : (w : F.World) → Quiet V clock budget w (N.wall_time w).1
  pub stop_quiet : (w : F.World) → Quiet V clock budget w (N.stop_requested w).1
  pub sleep_quiet : (w : F.World) → Quiet V clock budget w (N.sleep w).1
  pub global_quiet : (w : F.World) → Quiet V clock budget w (N.global_init w).1
  pub easy_quiet : (w : F.World) → Quiet V clock budget w (N.easy_init w).1
  pub setopt_quiet :
      (h : N.Handle) (name : Bytes) (w : F.World) → Quiet V clock budget w (N.setopt h name w).1
  pub perform_quiet : (h : N.Handle) (w : F.World) → Quiet V clock budget w (N.perform h w).1
  pub socket_quiet : (h : N.Handle) (w : F.World) → Quiet V clock budget w (N.active_socket h w).1
  pub poll_quiet : (h : N.Handle) (w : F.World) → Quiet V clock budget w (N.poll h w).1
  pub send_quiet :
      (h : N.Handle) (t : Bytes) (w : F.World) → Quiet V clock budget w (N.ws_send h t w).1
  pub recv_quiet : (h : N.Handle) (w : F.World) → Quiet V clock budget w (N.ws_recv h w).1
  pub send_again :
      (h : N.Handle) (t : Bytes) (w : F.World)
      → is_again (N.ws_send h t w).0.code ≡ true
      → budget (N.ws_send h t w).1 < budget w
  pub write_clock : (fd : F.Fd) (t : Bytes) (w : F.World) → clock w ≤ clock (F.write fd t w).1
  pub write_budget : (fd : F.Fd) (t : Bytes) (w : F.World) → budget (F.write fd t w).1 ≤ budget w
  pub create_budget : (p : Bytes) (w : F.World) → budget (F.create p w).1 ≤ budget w
  pub frame_length :
      (options : CaptureOptions) (t id : ℕ) (message line : Bytes)
      → length message ≤ maximum_message_size
      → N.dump (frame_value t id message) ≡ some line
      → length line ≤ longest_text options
  pub metadata_length :
      (options : CaptureOptions) (line : Bytes)
      → N.dump (metadata_value options) ≡ some line
      → length line ≤ longest_text options
  pub subscribe_length :
      (options : CaptureOptions) (channel text : Bytes)
      → N.dump (subscribe_value options channel) ≡ some text
      → length text ≤ longest_text options
