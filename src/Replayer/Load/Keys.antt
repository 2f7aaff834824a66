-- ===== src/Replayer/Load/Keys.antt =====
-- What a search for each key finds in the event of a system call with a payload reference.
use os_ai_assisted_determini.Base.{
  ℕ, ◌≡◌, refl, ap, ◌∙◌, true, some, ◌∷◌, ◌++◌, append_assoc, arith, Bytes, codes, Lacks,
}
use os_ai_assisted_determini.Base.Int.{ℤ}
use os_ai_assisted_determini.Libc.Find.{find_after}
use os_ai_assisted_determini.Libc.FindLaws.{misses, find_after-misses, find_after_here}
use os_ai_assisted_determini.Libc.Print.{print_nat, print_int}
use os_ai_assisted_determini.Trace.Syscalls.{SyscallEntry}
use os_ai_assisted_determini.Trace.Writer.{
  event_name, args_text, syscall_text, errno_of, payload_ref_text,
}
use os_ai_assisted_determini.Replayer.Passes.{quote, key_needle, pass_nat, pass_int}
use os_ai_assisted_determini.Replayer.Passes.Fields.{
  Misses, front_texts, arg_texts, ret_texts, pass_front, pass_name, pass_args, pass_ret,
  event_name-Lacks,
}

abbrev key_etype : Bytes
key_etype = codes "etype"

abbrev more_etype : Bytes
more_etype = codes "\"SYSCALL\""

abbrev key_number : Bytes
key_number = codes "syscall_no"

abbrev more_number : Bytes
more_number = codes ""

abbrev key_name : Bytes
key_name = codes "name"

abbrev more_name : Bytes
more_name = codes "\""

abbrev key_ret : Bytes
key_ret = codes "ret"

abbrev more_ret : Bytes
more_ret = codes ""

abbrev key_offset : Bytes
key_offset = codes "offset"

abbrev more_offset : Bytes
more_offset = codes ""

abbrev key_length : Bytes
key_length = codes "length"

abbrev more_length : Bytes
more_length = codes ""

abbrev key_sha256 : Bytes
key_sha256 = codes "sha256"

abbrev more_sha256 : Bytes
more_sha256 = codes "\""

module _ (run_id : Bytes) (seq time : ℕ) (pid : ℤ) (entry : SyscallEntry) (ret : ℤ)
    (clean : Lacks quote run_id) where
  abbrev text : Bytes → Bytes
  text rest = syscall_text run_id seq time pid entry ret rest

  module _ (key more : Bytes) (lacks : Lacks quote key)
      (front : Misses (key_needle key more) front_texts)
      (etype : misses (key_needle key more) (codes ",\"etype\":\"SYSCALL\",\"name\":") ≡ true) where
    -- Up to the arguments, and up to the end of the arguments.
    find_in_args :
        (rest : Bytes)
        → find_after (text rest) (key_needle key more)
          ≡ find_after
              (codes "\",\"phase\":\"exit\",\"args\":{"
                ++ args_text entry (
                    codes "\"ret\":"
                    ++ (print_int ret
                        ++ (codes ",\"errno\":" ++ (print_int (errno_of ret) ++ rest)))))
              (key_needle key more)
    unfolding syscall_text
    find_in_args rest =
        pass_name key more lacks run_id seq time pid (event_name entry.syscall_no) _ front etype
          clean (event_name-Lacks entry.syscall_no)

    find_behind_args :
        (rest : Bytes)
        → Misses (key_needle key more) arg_texts
        → find_after (text rest) (key_needle key more)
          ≡ find_after
              (codes "},\"ret\":"
                ++ (print_int ret ++ (codes ",\"errno\":" ++ (print_int (errno_of ret) ++ rest))))
              (key_needle key more)
    find_behind_args rest m = find_in_args rest ∙ pass_args key more lacks entry _ m

    find_behind_ret :
        (rest : Bytes)
        → Misses (key_needle key more) arg_texts
        → Misses (key_needle key more) ret_texts
        → find_after (text rest) (key_needle key more) ≡ find_after rest (key_needle key more)
    find_behind_ret rest m r = find_behind_args rest m ∙ pass_ret key more lacks ret rest r

  pub find-etype :
      (rest : Bytes)
      → (r : Bytes) × (find_after (text rest) (codes "\"etype\":\"SYSCALL\"") ≡ some r)
  unfolding misses syscall_text
  find-etype rest = (
    _,
    pass_front key_etype more_etype (omega arith) run_id seq time pid _
          (refl, (refl, (refl, (refl, (refl, tt))))) clean
        ∙ find_after-misses (codes ",") _ (codes "\"etype\":\"SYSCALL\"") refl
        ∙ find_after_here (codes "\"etype\":\"SYSCALL\"") _,
  )

  pub find-name :
      (rest : Bytes)
      → (r : Bytes) × (find_after (text rest) (codes "\"name\":\"")
          ≡ some (event_name entry.syscall_no ++ (quote ∷ r)))
  unfolding misses syscall_text
  find-name rest = (
    _,
    pass_front key_name more_name (omega arith) run_id seq time pid _
          (refl, (refl, (refl, (refl, (refl, tt))))) clean
        ∙ find_after-misses (codes ",\"etype\":\"SYSCALL\",") _ (codes "\"name\":\"") refl
        ∙ find_after_here (codes "\"name\":\"") _,
  )

  pub find-syscall_no :
      (rest : Bytes)
      → (r : Bytes) × (find_after (text rest) (codes "\"syscall_no\":")
          ≡ some (print_int entry.syscall_no ++ (b',' ∷ r)))
  unfolding misses args_text
  find-syscall_no rest = (
    _,
    find_in_args key_number more_number (omega arith) (refl, (refl, (refl, (refl, (refl, tt)))))
          refl rest
        ∙ find_after-misses (codes "\",\"phase\":\"exit\",\"args\":{") _ (codes "\"syscall_no\":")
            refl
        ∙ find_after_here (codes "\"syscall_no\":") _,
  )

  pub find-ret :
      (rest : Bytes)
      → (r : Bytes) × (find_after (text rest) (codes "\"ret\":")
          ≡ some (print_int ret ++ (b',' ∷ r)))
  unfolding misses
  find-ret rest = (
    _,
    find_behind_args key_ret more_ret (omega arith) (refl, (refl, (refl, (refl, (refl, tt))))) refl
          rest (refl, (refl, (refl, (refl, (refl, (refl, (refl, tt)))))))
        ∙ find_after-misses (codes "},") _ (codes "\"ret\":") refl
        ∙ find_after_here (codes "\"ret\":") _,
  )

  -- The payload reference behind the event, and what follows it.
  module _ (offset : ℤ) (len : ℕ) (hash after : Bytes) where
    abbrev tail : Bytes
    tail = b',' ∷ (payload_ref_text offset len hash ++ after)

    reference :
        (s : Bytes)
        → payload_ref_text offset len hash ++ s
          ≡ codes "\"payload_ref\":{\"file\":\"payload.bin\",\"offset\":"
            ++ (print_int offset
                ++ (codes ",\"length\":"
                    ++ (print_nat len
                        ++ (codes ",\"sha256\":\""
                            ++ (hash ++ (codes "\",\"encoding\":\"raw\"}" ++ s))))))
    unfolding payload_ref_text
    reference s = simp append_assoc

    pub find-offset :
        (r : Bytes) × (find_after (text tail) (codes "\"offset\":")
          ≡ some (print_int offset ++ (b',' ∷ r)))
    unfolding misses
    find-offset = (
      _,
      find_behind_ret key_offset more_offset (omega arith)
            (refl, (refl, (refl, (refl, (refl, tt))))) refl tail
            (refl, (refl, (refl, (refl, (refl, (refl, (refl, tt))))))) (refl, (refl, tt))
          ∙ ap (λ l. find_after (b',' ∷ l) (codes "\"offset\":")) (reference after)
          ∙ find_after-misses (codes ",\"payload_ref\":{\"file\":\"payload.bin\",") _
              (codes "\"offset\":") refl
          ∙ find_after_here (codes "\"offset\":") _,
    )

    pub find-length :
        (r : Bytes) × (find_after (text tail) (codes "\"length\":")
          ≡ some (print_nat len ++ (b',' ∷ r)))
    unfolding misses
    find-length = (
      _,
      find_behind_ret key_length more_length (omega arith)
            (refl, (refl, (refl, (refl, (refl, tt))))) refl tail
            (refl, (refl, (refl, (refl, (refl, (refl, (refl, tt))))))) (refl, (refl, tt))
          ∙ ap (λ l. find_after (b',' ∷ l) (codes "\"length\":")) (reference after)
          ∙ find_after-misses (codes ",\"payload_ref\":{\"file\":\"payload.bin\",\"offset\":") _
              (codes "\"length\":") refl
          ∙ pass_int key_length more_length (omega arith) offset _
          ∙ find_after-misses (codes ",") _ (codes "\"length\":") refl
          ∙ find_after_here (codes "\"length\":") _,
    )

    pub find-sha256 :
        (r : Bytes) × (find_after (text tail) (codes "\"sha256\":\"") ≡ some (hash ++ (quote ∷ r)))
    unfolding misses
    find-sha256 = (
      _,
      find_behind_ret key_sha256 more_sha256 (omega arith)
            (refl, (refl, (refl, (refl, (refl, tt))))) refl tail
            (refl, (refl, (refl, (refl, (refl, (refl, (refl, tt))))))) (refl, (refl, tt))
          ∙ ap (λ l. find_after (b',' ∷ l) (codes "\"sha256\":\"")) (reference after)
          ∙ find_after-misses (codes ",\"payload_ref\":{\"file\":\"payload.bin\",\"offset\":") _
              (codes "\"sha256\":\"") refl
          ∙ pass_int key_sha256 more_sha256 (omega arith) offset _
          ∙ find_after-misses (codes ",\"length\":") _ (codes "\"sha256\":\"") refl
          ∙ pass_nat key_sha256 more_sha256 (omega arith) len _
          ∙ find_after-misses (codes ",") _ (codes "\"sha256\":\"") refl
          ∙ find_after_here (codes "\"sha256\":\"") _,
    )
