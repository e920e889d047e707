-- ===== src/Examples.antt =====
-- Tests of the models at concrete inputs, and the theorems at inputs that meet their hypotheses.
mod StateExamples
mod ConsoleExamples
mod PollingExamples
mod ThemeExamples
mod ChartExamples
mod BandExamples
mod AgentExamples
mod CandleExamples
mod SwitcherExamples
mod ActivityExamples
mod KitExamples
mod AppExamples
mod WizardExamples
mod TunnelExamples
mod PageExamples
mod TrafficExamples
mod SetupExamples
mod SettingsExamples
mod AnalyticsExamples
mod WallExamples
