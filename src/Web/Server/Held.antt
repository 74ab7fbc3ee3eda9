-- ===== src/Web/Server/Held.antt =====
-- How often the servers hold an implementation.
use arby.Common.{ℕ, List}
use arby.Common.Totals.{total, count}
use arby.Web.Server.{ServerId, ImplId, Server}

abbrev pub held_by : ImplId → ServerId × Server → ℕ
held_by i (k, s) = count i s.impls

abbrev pub held : ImplId → List (ServerId × Server) → ℕ
held i m = total (held_by i) m
