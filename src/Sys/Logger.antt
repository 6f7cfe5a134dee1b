-- ===== src/Sys/Logger.antt =====
-- src/liblogger: ConsoleLogger.cpp and FileLogger.cpp, which differ in where their lines go.
use tcp_udp.Base.{
  ℕ, ◌≡◌, refl, Bool-cases, inl, inr, List, [], ◌∷◌, ◌++◌, append-nil, append_assoc, ltb, ap, sym,
  ◌∙◌, if◌then◌else◌,
}
use tcp_udp.Std.Text.{Bytes, codes}
use tcp_udp.Sys.Exec.{Message}
use tcp_udp.Sys.World.{LogLevel, debug, info, error, Entry}

-- The numbers of the enumeration.
abbrev rank : LogLevel → ℕ
rank debug = 0
rank info = 1
rank error = 2

-- The lines that were written, oldest first.
pub record Logger : Type 0 where
  pub level : LogLevel
  pub lines : List Bytes

unfoldable pub create : LogLevel → Logger
create level = record { level = level; lines = [] }

-- `format` is what `vsnprintf` makes of a format and its arguments.
module _ (format : Message → Bytes) where
  unfoldable pub log : LogLevel → Message → Logger → Logger
  log level message l =
      if ltb (rank level) (rank l.level)
      then l
      else record l { lines = l.lines ++ format message ∷ [] }

  unfoldable pub log_all : List Entry → Logger → Logger
  unfolding log
  log_all [] l = l
  log_all (e ∷ es) l = log_all es (log e.level e.message l)

  -- The lines of the entries that a logger of a level writes.
  abbrev pub shown : LogLevel → List Entry → List Bytes
  shown level [] = []
  shown level (e ∷ es) =
      let rest = shown level es in
      if ltb (rank e.level) (rank level) then rest else format e.message ∷ rest

  -- A logger writes one line for each entry of its level or above, in order, and no other.
  pub log_all-lines :
      (es : List Entry) (l : Logger)
      → log_all es l ≡ record l { lines = l.lines ++ shown l.level es }
  unfolding log_all
  log_all-lines [] l = ap (λ lines. record l { lines = lines }) (sym (append-nil l.lines))
  log_all-lines (e ∷ es) l = elim (Bool-cases (ltb (rank e.level) (rank l.level))) [
    | inl h ↦ rw h (log_all-lines es l)
    | inr h ↦ rw h (
        log_all-lines es (record l { lines = l.lines ++ format e.message ∷ [] })
        ∙ ap (λ lines. record l { lines = lines })
            (append_assoc l.lines (format e.message ∷ []) (shown l.level es)))
  ]

errors_only :
    (log_all
      (λ m. codes m.format)
      (record { level = info; message = record { format = "started"; args = [] } }
        ∷ record { level = error; message = record { format = "failed"; args = [] } }
        ∷ [])
      (create error)).lines
    ≡ codes "failed" ∷ []
unfolding log_all create
errors_only = refl
