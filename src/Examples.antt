-- ===== src/Examples.antt =====
-- The theorems at concrete inputs, and runs of the modelled code.
mod OnCpu
mod OnFs
mod OnBios
mod OnKernel
mod OnCompiler
