-- ===== src/Msgconv/Line/Rounds.antt =====
-- pkg/msgconv/wa-text.go: as many rounds as a line has bytes are enough to replace all matches.
