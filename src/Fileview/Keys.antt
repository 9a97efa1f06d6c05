-- ===== src/Fileview/Keys.antt =====
-- The key codes of fileview.c, and the switch of its main loop.
use linux_summary.Base.{ℕ, Bool, ◌||◌, ◌==◌, if◌then◌else◌}

abbrev pub kb_seek : ℕ
kb_seek = 0x0A

abbrev pub kb_quit : ℕ
kb_quit = 0x1B

abbrev pub kb_back : ℕ
kb_back = 0x7F

abbrev pub kb_home : ℕ
kb_home = 0x315B1B

abbrev pub kb_line_up : ℕ
kb_line_up = 0x415B1B

abbrev pub kb_page_up : ℕ
kb_page_up = 0x355B1B

abbrev pub kb_left : ℕ
kb_left = 0x445B1B

abbrev pub kb_right : ℕ
kb_right = 0x435B1B

abbrev pub kb_line_down : ℕ
kb_line_down = 0x425B1B

abbrev pub kb_page_down : ℕ
kb_page_down = 0x365B1B

abbrev pub kb_end : ℕ
kb_end = 0x345B1B

abbrev pub kb_del : ℕ
kb_del = 0x335B1B

-- The cases of the switch on the key.
pub data Command : Type 0 where
  home end line_down line_up page_down page_up narrower wider seek quit other : Command
  format : ℕ → Command

either : ℕ → ℕ → ℕ → Bool
either a b c = (c == a) || (c == b)

-- Which case the switch takes.
unfoldable pub command_of : ℕ → Command
unfolding either
command_of c =
    if either b'H' b'h' c || (c == kb_home)
    then home
    else (if either b'E' b'e' c || (c == kb_end)
        then end
        else (if c == kb_line_down
            then line_down
            else (if c == kb_line_up
                then line_up
                else (if c == kb_page_down
                    then page_down
                    else (if c == kb_page_up
                        then page_up
                        else (if c == kb_right
                            then narrower
                            else (if c == kb_left
                                then wider
                                else (if either b'B' b'b' c
                                    then format 1
                                    else (if either b'W' b'w' c
                                        then format 2
                                        else (if either b'D' b'd' c
                                            then format 4
                                            else (if either b'Q' b'q' c
                                                then format 8
                                                else (if either b'O' b'o' c
                                                    then format 16
                                                    else (if c == kb_seek
                                                        then seek
                                                        else (if c == kb_quit
                                                            then quit
                                                            else other))))))))))))))
