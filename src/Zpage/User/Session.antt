-- ===== src/Zpage/User/Session.antt =====
-- What a session of user.c prints: the answers to its keys.
use mathlib.Core.Path.{subst}
use linux_summary.Base.{
  ℕ, ◌+◌, ◌-◌, ◌%◌, ◌^◌, ◌<◌, ◌≡◌, refl, ap, sym, ◌∙◌, true, false, Option, none, some, List, [],
  ◌∷◌, ◌++◌, ltb, length, append_assoc, length-append, arith,
}
use linux_summary.Base.Int.{ℤ, pos, negsuc}
use linux_summary.Base.Strto.{has_nul}
use linux_summary.Zpage.{done, Mm, Task, Device, mmap_len, page_size}
use linux_summary.Zpage.Buffer.{concat, write_at, bytes_from, length-write_at}
use linux_summary.Zpage.Ioctl.{
  Command, rounds_up_to, get_mm_info, get_vma_info, get_addr_region, mm_lines, vma_lines, my_ioctl,
  my_mmap,
}
use linux_summary.Zpage.Report.{shown, length-mm_lines, my_ioctl-mm_info, my_ioctl-vma_info}
use linux_summary.Zpage.Region.{addr_region_eq, copy_region_within}
use linux_summary.Zpage.User.{
  Key, info, quit, Out, usage, prompt, enter_pid, asks, result, text, hex_bytes, char_bytes, next,
  finished, failed, Printed, print, show_text, show_bytes, perform, round, loop, main,
}
use linux_summary.Zpage.User.Reports.{has_nul-mm_lines, has_nul-vma_lines}
use linux_summary.Zpage.User.Answers.{
  IsSyscall, user_bytes, IsRegion, Answer, info_of, vmas_of, bytes_of, chars_of, help_of, other_of,
  space_of, Answers, nil, cons, Keeps, show_text-write, length-bytes_from, show_bytes-write,
  bytes_from-user_bytes,
}

module _ (find : ℕ → Option Task) {syscall : ℤ → ℤ} (is : IsSyscall syscall) where
  perform_next :
      (cmd : Command) (show : ℤ → Device → Option (List Out)) (d d' : Device) (n : ℕ)
      (outs : List Out)
      → my_ioctl find cmd d ≡ done (pos n, d')
      → n < 2 ^ 31
      → show (pos n) d' ≡ some outs
      → perform find syscall cmd show d ≡ next (result cmd (pos n) ∷ outs) d'
  unfolding perform
  perform_next cmd show d d' n outs e small s =
      rw (perform, e, is.kept n small, s, is.kept n small) refl

  round-text :
      (cmd : Command) (d : Device) (t : List ℕ)
      → length d.mmap_data ≡ mmap_len
      → my_ioctl find cmd d ≡ shown t d
      → has_nul t ≡ false
      → length t < mmap_len
      → (d' : Device) × (perform find syscall cmd show_text d
          ≡ next (result cmd (pos (length t)) ∷ text t ∷ []) d')
        × Keeps find d.frame d'
  round-text cmd d t len e h short = (
    record d { mmap_data = write_at d.mmap_data 0 (t ++ 0 ∷ []) },
    perform_next cmd show_text d _ (length t) (text t ∷ []) e (omega arith)
        (show_text-write (pos (length t)) d t h),
    record {
      len =
          length-write_at d.mmap_data 0 (t ++ 0 ∷ []) (omega (arith, length-append t (0 ∷ [])))
          ∙ len;
      same = refl;
    },
  )

  round-region :
      (out : List ℕ → Out) (d : Device) (pid : ℕ) (mm : Mm) (start end : ℕ)
      → length d.mmap_data ≡ mmap_len
      → IsRegion find d.frame pid mm start end
      → let cmd = get_addr_region (some (pid, start, end)) in
        (d' : Device) × (perform find syscall cmd (λ ret. show_bytes out (rounds_up_to ret)) d
          ≡ next
              (result cmd (pos (end - start))
                ∷ out (user_bytes mm.tables d.frame start (end - start + 1))
                ∷ [])
              d')
        × Keeps find d.frame d'
  unfolding my_ioctl
  round-region out d pid mm start end len r =
      let n = end - start + 1 in
      let bs = bytes_from (d.frame r.page) (start % page_size) n in
      let d' : Device = record d { mmap_data = write_at d.mmap_data 0 bs } in
      let size = length-bytes_from (d.frame r.page) (start % page_size) n in
      let same =
        bytes_from-user_bytes d.frame start n r.page r.paged r.walked (omega (arith, r.one_page)) in
      let ran : my_ioctl find (get_addr_region (some (pid, start, end))) d
          ≡ done (pos (end - start), d') =
        rw (r.found) (
          addr_region_eq mm d start end r.ordered r.words (omega (arith, r.one_page))
          ∙ copy_region_within mm d start n r.page (pos (end - start)) len r.walked
              (omega (arith, r.one_page))) in
      (
        d',
        perform_next (get_addr_region (some (pid, start, end)))
            (λ ret. show_bytes out (rounds_up_to ret)) d d' (end - start)
            (out (user_bytes mm.tables d.frame start n) ∷ []) ran (omega (arith, r.one_page))
            (show_bytes-write out d bs n size len (omega (arith, r.one_page))
              ∙ ap (λ b. some (out b ∷ [])) same),
        record {
          len = length-write_at d.mmap_data 0 bs (omega (arith, r.one_page, size)) ∙ len;
          same = refl;
        },
      )

  -- The answer to a key is what it asks for and what its round prints.
  round-Prints :
      (d : Device) {key : Key} {outs : List Out}
      → length d.mmap_data ≡ mmap_len
      → Answer find d.frame key outs
      → (d' : Device) × (shows : List Out) × (round find syscall key d ≡ next shows d')
        × (outs ≡ asks key ++ shows)
        × Keeps find d.frame d'
  unfolding round asks
  round-Prints d len (info_of pid mm found) =
      let (d', ran, kept) =
        round-text (get_mm_info pid) d (concat (mm_lines mm)) len
          (my_ioctl-mm_info find pid mm d found len) (has_nul-mm_lines mm) (length-mm_lines mm) in
      (d', _, ran, refl, kept)
  round-Prints d len (vmas_of pid mm found short) =
      let (d', ran, kept) =
        round-text (get_vma_info pid) d (concat (vma_lines mm)) len
          ((my_ioctl-vma_info find pid mm d found len).0 short) (has_nul-vma_lines mm) short in
      (d', _, ran, refl, kept)
  round-Prints d len (bytes_of pid mm start end r) =
      let (d', ran, kept) = round-region hex_bytes d pid mm start end len r in
      (d', _, ran, refl, kept)
  round-Prints d len (chars_of pid mm start end r) =
      let (d', ran, kept) = round-region char_bytes d pid mm start end len r in
      (d', _, ran, refl, kept)
  round-Prints d len help_of = (d, _, refl, refl, record { len = len; same = refl })
  round-Prints d len other_of = (d, _, refl, refl, record { len = len; same = refl })
  round-Prints d len space_of = (d, _, refl, refl, record { len = len; same = refl })

  -- The keys are answered one after another, whatever the last one leads to.
  loop-Answers :
      (frame : ℕ → ℕ → ℕ) (d : Device) {keys : List Key} {outs : List Out} (rest : List Key)
      (p : Printed)
      → length d.mmap_data ≡ mmap_len
      → d.frame ≡ frame
      → Answers find frame keys outs
      → ((e : Device) → Keeps find frame e → loop find syscall rest e ≡ p)
      → loop find syscall (keys ++ rest) d ≡ print outs p
  unfolding loop
  loop-Answers frame d rest p len same nil last = last d (record { len = len; same = same })
  loop-Answers frame d rest p len same (cons {key} {outs} {rest = more} answer answers) last =
      let (d', shows, ran, whole, kept) =
        round-Prints d len (subst (λ f. Answer find f key outs) (sym same) answer) in
      let joined : (outs ++ more) ++ p.outs ≡ asks key ++ (shows ++ (more ++ p.outs)) =
        ap (λ o. (o ++ more) ++ p.outs) whole
        ∙ append_assoc (asks key ++ shows) more p.outs
        ∙ append_assoc (asks key) shows (more ++ p.outs) in
      rw (loop, ran)
        (ap (λ q. print (asks key) (print shows q))
            (loop-Answers frame d' rest p kept.len (kept.same ∙ same) answers last)
          ∙ ap (λ l. record p { outs = l }) (sym joined))

  loop_quit :
      (rest : List Key) (d : Device)
      → loop find syscall (quit ∷ rest) d ≡ record { outs = []; end = finished }
  unfolding loop round asks
  loop_quit rest d = refl

  loop_unknown :
      (pid : ℕ) (rest : List Key)
      → find pid ≡ none
      → (d : Device)
      → loop find syscall (info pid ∷ rest) d
        ≡ record { outs = enter_pid ∷ result (get_mm_info pid) (negsuc 0) ∷ []; end = failed }
  unfolding loop round perform my_ioctl asks
  loop_unknown pid rest unknown d =
      rw (loop, asks, round, perform, my_ioctl, unknown, is.error) refl

  main_mapped :
      (d : Device) (vm_start : ℕ) (keys : List Key)
      → main find syscall true vm_start true keys d
        ≡ print (usage ∷ prompt ∷ []) (loop find syscall keys d)
  unfolding main my_mmap
  main_mapped d vm_start keys =
      let fits : ltb mmap_len (vm_start + mmap_len - vm_start) ≡ false = ground arith in
      rw (main, my_mmap, fits) refl

  -- With the device there and its memory mapped, and keys that each ask for the memory of a
  -- process, for its areas (whose text fits), for a region within a page of it, or for help: the
  -- program prints the usage and then, in their order, what each key asks for and the answers to
  -- all of them, and ends at `q` with 0. A process that is not there ends it with 1, after -1 is
  -- printed as the result. The keys behind that are not read.
  pub main-Answers :
      (d : Device) (vm_start : ℕ) {keys : List Key} {outs : List Out} (pid : ℕ) (rest : List Key)
      → length d.mmap_data ≡ mmap_len
      → Answers find d.frame keys outs
      → (main find syscall true vm_start true (keys ++ quit ∷ rest) d
          ≡ record { outs = usage ∷ prompt ∷ outs ++ []; end = finished })
        × (find pid ≡ none
            → main find syscall true vm_start true (keys ++ info pid ∷ rest) d ≡ record {
              outs = usage ∷ prompt ∷ outs ++ enter_pid ∷ result (get_mm_info pid) (negsuc 0) ∷ [];
              end = failed;
            })
  main-Answers d vm_start {keys} {outs} pid rest len answers = (
    main_mapped d vm_start (keys ++ quit ∷ rest)
        ∙ ap (print (usage ∷ prompt ∷ [])) (
            loop-Answers d.frame d (quit ∷ rest) (record { outs = []; end = finished }) len refl
              answers (λ e kept. loop_quit rest e)),
    λ unknown.
        main_mapped d vm_start (keys ++ info pid ∷ rest)
        ∙ ap (print (usage ∷ prompt ∷ [])) (
            loop-Answers d.frame d (info pid ∷ rest)
              (record { outs = enter_pid ∷ result (get_mm_info pid) (negsuc 0) ∷ []; end = failed })
              len refl answers (λ e kept. loop_unknown pid rest unknown e)),
  )
