-- ===== src/Tests.antt =====
-- Runs of the modelled code at concrete inputs, one for each theorem that has conditions.
mod BarrierRuns
mod BufferRuns
mod CallRuns
mod FileRuns
mod FsRuns
mod IpcRuns
mod KallocRuns
mod LogRuns
mod MailRuns
mod PipeRuns
mod ProcRuns
mod ShellRuns
mod SleeplockRuns
mod TextRuns
mod VmRuns
