-- ===== src/Tests.antt =====
-- Runs of the model on concrete inputs, and the theorems at inputs that meet their hypotheses.
mod Codec
mod Numbers
mod Strings
mod Tokens
mod Emission
mod Events
mod Tools
mod Binding
