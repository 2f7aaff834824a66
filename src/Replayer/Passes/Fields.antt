-- ===== src/Replayer/Passes/Fields.antt =====
-- A search for a key passes over the events of system calls, field by field.
use os_ai_assisted_determini.Libc.FindLaws.{find_after-misses, misses}
use os_ai_assisted_determini.Base.{
  ℕ, zero, suc, ◌≡◌, ◌∙◌, true, List, [], ◌∷◌, ◌++◌, arith, Bytes, codes, take, All, All-append,
  Lacks,
}
use os_ai_assisted_determini.Base.Int.{ℤ, pos, negsuc}
use os_ai_assisted_determini.Libc.Find.{find_after}
use os_ai_assisted_determini.Libc.Print.{print_int, cut_to}
use os_ai_assisted_determini.Trace.Syscalls.{SyscallEntry, syscall_name}
use os_ai_assisted_determini.Trace.Writer.{event_front, event_name, args_text, errno_of}
use os_ai_assisted_determini.Replayer.Passes.{
  quote, key_needle, print_int-Lacks, pass_value, pass_nat, pass_int,
}

-- The literals between the values of an event of a system call.
abbrev schema_text : Bytes
schema_text = codes "{\"schema_version\":\"adr.trace.v1\",\"run_id\":"

abbrev seq_text : Bytes
seq_text = codes "\",\"seq\":"

abbrev time_text : Bytes
time_text = codes ",\"time_ns\":"

abbrev pid_text : Bytes
pid_text = codes ",\"pid\":"

abbrev tid_text : Bytes
tid_text = codes ",\"tid\":"

abbrev etype_text : Bytes
etype_text = codes ",\"etype\":\"SYSCALL\",\"name\":"

abbrev number_text : Bytes
number_text = codes "\",\"phase\":\"exit\",\"args\":{\"syscall_no\":"

abbrev a0_text : Bytes
a0_text = codes ",\"a0\":"

abbrev a1_text : Bytes
a1_text = codes ",\"a1\":"

abbrev a2_text : Bytes
a2_text = codes ",\"a2\":"

abbrev a3_text : Bytes
a3_text = codes ",\"a3\":"

abbrev a4_text : Bytes
a4_text = codes ",\"a4\":"

abbrev a5_text : Bytes
a5_text = codes ",\"a5\":"

abbrev ret_text : Bytes
ret_text = codes "},\"ret\":"

abbrev errno_text : Bytes
errno_text = codes ",\"errno\":"

abbrev pub front_texts : List Bytes
front_texts = schema_text ∷ seq_text ∷ time_text ∷ pid_text ∷ tid_text ∷ []

abbrev pub arg_texts : List Bytes
arg_texts = number_text ∷ a0_text ∷ a1_text ∷ a2_text ∷ a3_text ∷ a4_text ∷ a5_text ∷ []

abbrev pub ret_texts : List Bytes
ret_texts = ret_text ∷ errno_text ∷ []

abbrev pub Misses : Bytes → List Bytes → Type 0
Misses n = All (λ l. misses n l ≡ true)

module _ (key more : Bytes) (lacks : Lacks quote key) where
  abbrev sought : Bytes
  sought = key_needle key more

  pub pass_front :
      (run_id : Bytes) (seq time : ℕ) (pid : ℤ) (rest : Bytes)
      → Misses sought front_texts
      → Lacks quote run_id
      → find_after (event_front run_id seq time pid rest) sought
        ≡ find_after (codes ",\"etype\":\"" ++ rest) sought
  unfolding event_front
  pass_front run_id seq time pid rest m clean =
      find_after-misses schema_text _ sought m.0
      ∙ pass_value key more lacks run_id _ clean
      ∙ find_after-misses seq_text _ sought m.1.0
      ∙ pass_nat key more lacks seq _
      ∙ find_after-misses time_text _ sought m.1.1.0
      ∙ pass_nat key more lacks time _
      ∙ find_after-misses pid_text _ sought m.1.1.1.0
      ∙ pass_int key more lacks pid _
      ∙ find_after-misses tid_text _ sought m.1.1.1.1.0
      ∙ pass_int key more lacks pid _

  -- The name, up to its closing quote.
  pub pass_name :
      (run_id : Bytes) (seq time : ℕ) (pid : ℤ) (name rest : Bytes)
      → Misses sought front_texts
      → misses sought etype_text ≡ true
      → Lacks quote run_id
      → Lacks quote name
      → find_after
          (event_front run_id seq time pid
            (codes "SYSCALL\",\"name\":\"" ++ (name ++ (quote ∷ b',' ∷ rest))))
          sought
        ≡ find_after (quote ∷ b',' ∷ rest) sought
  pass_name run_id seq time pid name rest m e clean clean_name =
      pass_front run_id seq time pid _ m clean
      ∙ find_after-misses etype_text _ sought e
      ∙ pass_value key more lacks name rest clean_name

  -- The arguments, from the closing quote of the name.
  pub pass_args :
      (entry : SyscallEntry) (rest : Bytes)
      → Misses sought arg_texts
      → find_after (codes "\",\"phase\":\"exit\",\"args\":{" ++ args_text entry rest) sought
        ≡ find_after (codes "}," ++ rest) sought
  unfolding args_text
  pass_args entry rest m =
      find_after-misses number_text _ sought m.0
      ∙ pass_int key more lacks entry.syscall_no _
      ∙ find_after-misses a0_text _ sought m.1.0
      ∙ pass_nat key more lacks entry.a0 _
      ∙ find_after-misses a1_text _ sought m.1.1.0
      ∙ pass_nat key more lacks entry.a1 _
      ∙ find_after-misses a2_text _ sought m.1.1.1.0
      ∙ pass_nat key more lacks entry.a2 _
      ∙ find_after-misses a3_text _ sought m.1.1.1.1.0
      ∙ pass_nat key more lacks entry.a3 _
      ∙ find_after-misses a4_text _ sought m.1.1.1.1.1.0
      ∙ pass_nat key more lacks entry.a4 _
      ∙ find_after-misses a5_text _ sought m.1.1.1.1.1.1.0
      ∙ pass_nat key more lacks entry.a5 _

  pub pass_ret :
      (ret : ℤ) (rest : Bytes)
      → Misses sought ret_texts
      → find_after
          (codes "},\"ret\":"
            ++ (print_int ret ++ (codes ",\"errno\":" ++ (print_int (errno_of ret) ++ rest))))
          sought
        ≡ find_after rest sought
  pass_ret ret rest m =
      find_after-misses ret_text _ sought m.0
      ∙ pass_int key more lacks ret _
      ∙ find_after-misses errno_text _ sought m.1.0
      ∙ pass_int key more lacks (errno_of ret) _

pub take-Lacks : (q n : ℕ) (s : Bytes) → Lacks q s → Lacks q (take n s)
take-Lacks q zero s h = tt
take-Lacks q (suc n) [] h = tt
take-Lacks q (suc n) (c ∷ s) h = (h.0, take-Lacks q n s h.1)

generated_name-Lacks : (number : ℤ) → Lacks quote (cut_to 64 (codes "sys_" ++ print_int number))
unfolding cut_to
generated_name-Lacks number =
    take-Lacks quote 63 (codes "sys_" ++ print_int number)
      (All-append _ (codes "sys_") (print_int number) (omega arith) (print_int-Lacks number))

-- The name of an event holds no quote.
pub event_name-Lacks : (number : ℤ) → Lacks quote (event_name number)
unfolding event_name syscall_name
event_name-Lacks (pos n) = ground (arith, generated_name-Lacks (pos n))
event_name-Lacks (negsuc n) = generated_name-Lacks (negsuc n)
