-- ===== src/Xlog/Whole.antt =====
-- The functions of libxlog together: what a sequence of calls leaves behind.
use android_device_gionee_p.Common.{◌≡◌, refl, sym, ◌∙◌, List, [], ◌∷◌, ◌++◌, append_assoc}
use android_device_gionee_p.Common.Int.{ℤ}
use android_device_gionee_p.Xlog.{XlogRecord, Line, xlog_buf_printf}
use android_device_gionee_p.Xlog.Stubs.{
  Memory, AudioSystem, audio_system, Matv, matv, Client, client, Fm, fm,
}
use android_device_gionee_p.Xlog.Stubs.Untouched.{
  audio_system-memory, matv-memory, client-memory, fm-memory,
}

pub data Call (Arg : Type 0) : Type 0 where
  printf : ℤ → XlogRecord → List Arg → Call Arg
  audio : AudioSystem → Call Arg
  atv : Matv → Call Arg
  of_client : Client → Call Arg
  radio : Fm → Call Arg

pub record System (Arg : Type 0) : Type 0 where
  pub log : List (Line Arg)
  pub memory : Memory

module _ {Arg : Type 0} where
  abbrev pub call : Call Arg → System Arg → System Arg
  call (printf bufid rec args) s = record s { log = (xlog_buf_printf bufid rec args s.log).1 }
  call (audio m) s = record s { memory = (audio_system m s.memory).1 }
  call (atv m) s = record s { memory = (matv m s.memory).1 }
  call (of_client m) s = record s { memory = (client m s.memory).1 }
  call (radio m) s = record s { memory = (fm m s.memory).1 }

  abbrev pub run : List (Call Arg) → System Arg → System Arg
  run [] s = s
  run (c ∷ calls) s = run calls (call c s)

  -- The lines of the calls that print, newest first.
  abbrev pub printed : List (Call Arg) → List (Line Arg)
  printed [] = []
  printed (printf bufid rec args ∷ calls) = printed calls ++ record { rec = rec; args = args } ∷ []
  printed (_ ∷ calls) = printed calls

  call-memory : (c : Call Arg) (s : System Arg) → (call c s).memory ≡ s.memory
  call-memory (printf bufid rec args) s = refl
  call-memory (audio m) s = audio_system-memory m s.memory
  call-memory (atv m) s = matv-memory m s.memory
  call-memory (of_client m) s = client-memory m s.memory
  call-memory (radio m) s = fm-memory m s.memory

  call-log :
      (c : Call Arg) (calls : List (Call Arg)) (s : System Arg)
      → printed calls ++ (call c s).log ≡ printed (c ∷ calls) ++ s.log
  unfolding xlog_buf_printf
  call-log (printf bufid rec args) calls s =
      sym (append_assoc (printed calls) (record { rec = rec; args = args } ∷ []) s.log)
  call-log (audio m) calls s = refl
  call-log (atv m) calls s = refl
  call-log (of_client m) calls s = refl
  call-log (radio m) calls s = refl

  -- After any calls the log has the lines of the calls that print, in their order and with nothing
  -- else, and no memory of the caller has changed.
  pub run_lem :
      (calls : List (Call Arg)) (s : System Arg)
      → ((run calls s).log ≡ printed calls ++ s.log) × ((run calls s).memory ≡ s.memory)
  run_lem [] s = (refl, refl)
  run_lem (c ∷ calls) s =
      let (log, memory) = run_lem calls (call c s) in
      (log ∙ call-log c calls s, memory ∙ call-memory c s)
